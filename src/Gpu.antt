-- ===== src/Gpu.antt =====
-- src/s6_gpu_thread.cpp: takes the blocks of the input buffer in order and passes each on in a block of
-- the output buffer. The spectroscopy is commented out in the source, which for SOURCE_FAST copies the
-- data instead; for SOURCE_S6 the file does not compile, since that branch calls init_gpu_memory, which
-- is commented out. The keys of the status buffer that hold floats or text are left out.
pub mod Passing
use serendip6_reobs.Base.{
  ℕ, zero, suc, ◌+◌, ◌-◌, ◌*◌, ◌/◌, ◌%◌, ◌<◌, ◌≤◌, ◌≡◌, Bool, Option, none, some, Result, ok, err,
  Fault, ◌>>=◌, ltb, leb, ◌==◌, if◌then◌else◌, update,
}
use serendip6_reobs.Config.{Config, Source, n_data_bytes_per_block}
use serendip6_reobs.Databuf.{
  Rv, Hashpipe, InputDatabuf, InputBlock, InputHeader, OutputDatabuf, OutputBlock, OutputHeader,
}
use serendip6_reobs.Databuf.Wait.{wait_loop}
use serendip6_reobs.Databuf.Input.{s6_input_databuf_set_free}
use serendip6_reobs.Databuf.Output.{s6_output_databuf_wait_free, s6_output_databuf_set_filled}
use serendip6_reobs.Packets.{memcpy}

-- The variables of run, the two buffers, and the keys of the status buffer. `last_mcount` is never
-- assigned after its first value 0, and `num_coarse_chan` not after N_COARSE_CHAN.
pub record GpuState (hp : Hashpipe) : Type 0 where
  pub curblock_in : ℕ
  pub curblock_out : ℕ
  pub last_mcount : ℕ
  pub num_coarse_chan : ℕ
  pub gpu_block_count : ℕ
  pub db_in : InputDatabuf hp
  pub db_out : OutputDatabuf hp
  pub gpublkin : ℕ
  pub gpubkout : ℕ
  pub gpumcnt : ℕ
  pub numhits : ℕ

module _ (c : Config) where
  -- The metadata of a block. The copy of `missed_pkts` is of N_BEAM_SLOTS words whatever the length of
  -- the array, N_BORS; `nhits` is what lies behind it in the output header.
  pub pass_metadata : InputHeader → OutputHeader → OutputHeader
  pass_metadata i o = record {
    mcnt = i.mcnt;
    coarse_chan_id = i.coarse_chan_id;
    num_coarse_chan = i.num_coarse_chan;
    sid = elim c.source [ Source.source_fast ↦ i.sid | _ ↦ o.sid ];
    time_sec = i.time_sec;
    time_nsec = i.time_nsec;
    missed_pkts = λ k. if ltb k c.n_beam_slots then i.missed_pkts k else o.missed_pkts k;
    nhits =
        λ k. if ltb (c.n_bors + k) c.n_beam_slots then i.missed_pkts (c.n_bors + k) else o.nhits k;
  }

  -- The data of a block: copied for SOURCE_FAST, left alone otherwise.
  pub pass_data : Source → (from to : ℕ → ℕ) → ℕ → ℕ
  pass_data Source.source_fast from to = memcpy to 0 from 0 (n_data_bytes_per_block c)
  pass_data Source.source_s6 from to = to
  pass_data Source.source_dibas from to = to

  -- The number of bors that the loop goes through.
  abbrev pub loop_bors : ℕ
  loop_bors = elim c.source [
    | Source.source_s6 ↦ c.n_beams
    | Source.source_dibas ↦ c.n_subspectra_per_spectrum
    | Source.source_fast ↦ c.n_subspectra_per_spectrum
  ]

  -- The loop over the bors, `k` left: each round copies the whole block.
  pub bors_loop : (k : ℕ) → (from to : ℕ → ℕ) → ℕ → ℕ
  bors_loop zero from to = to
  bors_loop (suc k) from to = bors_loop k from (pass_data c.source from to)

  pub pass_block : (num_coarse_chan : ℕ) → InputBlock → OutputBlock → OutputBlock
  pass_block num_coarse_chan i o = record {
    header = pass_metadata i.header o.header;
    bytes = if num_coarse_chan == 0 then o.bytes else bors_loop loop_bors i.bytes o.bytes;
  }

  module _ {hp : Hashpipe} where
    -- The wait for the output block, which is made unless the mcnt went back.
    unfoldable pub await_output : (fuel mcnt : ℕ) → GpuState hp → Result (OutputDatabuf hp)
    await_output fuel mcnt s =
        if leb s.last_mcount mcnt
        then wait_loop fuel (λ db. s6_output_databuf_wait_free db s.curblock_out) s.db_out
        else ok s.db_out

    -- One round of the main loop, with at most `fuel` calls in each of its two waits.
    unfoldable pub gpu_round : (fuel : ℕ) → GpuState hp → Result (GpuState hp)
    gpu_round fuel s = do
      in_header ← wait_loop fuel (λ h. hp.wait_filled h s.curblock_in) s.db_in.header
      let db_in = record (s.db_in) { header = in_header }
      let i = db_in.block s.curblock_in
      db_out ← await_output fuel i.header.mcnt s
      let o = pass_block s.num_coarse_chan i (db_out.block s.curblock_out)
      let (_, db_out') =
          s6_output_databuf_set_filled
            (record db_out { block = update db_out.block s.curblock_out o }) s.curblock_out
      let (_, db_in') = s6_input_databuf_set_free db_in s.curblock_in
      ok (record s {
        gpublkin = s.curblock_in;
        gpubkout = s.curblock_out;
        gpumcnt = i.header.mcnt;
        numhits = 0;
        gpu_block_count =
            if s.num_coarse_chan == 0 then s.gpu_block_count else s.gpu_block_count + loop_bors;
        db_in = db_in';
        db_out = db_out';
        curblock_out = (s.curblock_out + 1) % db_out'.n_block;
        curblock_in = (s.curblock_in + 1) % db_in'.n_block;
      })
