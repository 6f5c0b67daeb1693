-- ===== src/Gpu/Passing.antt =====
-- What a round of the GPU thread does to the two buffers.
use serendip6_reobs.Base.{
  ℕ, ◌+◌, ◌%◌, ◌<◌, ◌≡◌, ◌≢◌, ok, >>=-eq-ok, ok-injective, leb, update_self, update_ne, refl, sym,
  ap, arith, Bool-cases, inl, inr,
}
use serendip6_reobs.Config.{Config, fast_of, n_data_bytes_per_block}
use serendip6_reobs.Databuf.{Hashpipe, InputBlock, OutputDatabuf, OutputBlock}
use serendip6_reobs.Databuf.Wait.{wait_loop, wait_loop_keeps, Succeeds, wait_loop-Succeeds}
use serendip6_reobs.Databuf.Input.{s6_input_databuf_set_free}
use serendip6_reobs.Databuf.Output.{s6_output_databuf_wait_free, s6_output_databuf_set_filled}
use serendip6_reobs.Packets.{memcpy}
use serendip6_reobs.Gpu.{
  GpuState, pass_metadata, pass_data, bors_loop, pass_block, await_output, gpu_round,
}

-- For SOURCE_FAST a block is passed on whole: its counter, its header and all bytes of its data.
pub pass_block-fast :
    (n num_coarse_chan : ℕ) (i : InputBlock) (o : OutputBlock)
    → num_coarse_chan ≢ 0
    → let p = pass_block (fast_of n) num_coarse_chan i o in
      (p.header.mcnt ≡ i.header.mcnt)
      × (p.header.sid ≡ i.header.sid)
      × (p.header.coarse_chan_id ≡ i.header.coarse_chan_id)
      × (p.header.num_coarse_chan ≡ i.header.num_coarse_chan)
      × (p.header.time_sec ≡ i.header.time_sec)
      × (p.header.time_nsec ≡ i.header.time_nsec)
      × (p.header.missed_pkts 0 ≡ i.header.missed_pkts 0)
      × ((j : ℕ) → p.header.nhits j ≡ o.header.nhits j)
      × ((j : ℕ) → j < n_data_bytes_per_block (fast_of n) → p.bytes j ≡ i.bytes j)
unfolding pass_block pass_metadata bors_loop pass_data memcpy
pass_block-fast n num_coarse_chan i o some_chan = ground arith

module _ (c : Config) {hp : Hashpipe} where
  -- Neither wait touches the blocks.
  output_kept :
      (fuel m : ℕ) (s : GpuState hp) {d : OutputDatabuf hp}
      → await_output c fuel m s ≡ ok d
      → (d.block ≡ s.db_out.block) × (d.n_block ≡ s.db_out.n_block)
  unfolding await_output s6_output_databuf_wait_free
  output_kept fuel m s {d} e = elim (Bool-cases (leb s.last_mcount m)) [
    | inl forward ↦
        wait_loop_keeps
          (λ (x : OutputDatabuf hp). (x.block ≡ s.db_out.block) × (x.n_block ≡ s.db_out.n_block))
          (λ db. s6_output_databuf_wait_free db s.curblock_out) (λ x p. p) fuel s.db_out
          (refl, refl) (rw forward at e)
    | inr back ↦ rw (← ok-injective (rw back at e)) (refl, refl)
  ]

  -- Every round that ends takes the next input block and the next output block of their rings. The
  -- output block gets the input block, every other block of both buffers is as before.
  pub gpu_round-passes :
      (fuel : ℕ) (s : GpuState hp) {t : GpuState hp}
      → gpu_round c fuel s ≡ ok t
      → (t.curblock_in ≡ (s.curblock_in + 1) % s.db_in.n_block)
        × (t.curblock_out ≡ (s.curblock_out + 1) % s.db_out.n_block)
        × (t.db_in.block ≡ s.db_in.block)
        × (t.db_in.n_block ≡ s.db_in.n_block)
        × (t.db_out.n_block ≡ s.db_out.n_block)
        × (t.db_out.block s.curblock_out
            ≡ pass_block c s.num_coarse_chan
                (s.db_in.block s.curblock_in)
                (s.db_out.block s.curblock_out))
        × ((j : ℕ) → j ≢ s.curblock_out → t.db_out.block j ≡ s.db_out.block j)
  unfolding gpu_round s6_output_databuf_set_filled s6_input_databuf_set_free
  gpu_round-passes fuel s {t} e =
      let (h, got, e1) =
        >>=-eq-ok (wait_loop fuel (λ h. hp.wait_filled h s.curblock_in) s.db_in.header) _ e in
      let (d, free, e2) =
        >>=-eq-ok (await_output c fuel (s.db_in.block s.curblock_in).header.mcnt s) _ e1 in
      let (same, size) = output_kept fuel _ s free in
      rw (← ok-injective e2) (
        refl,
        ap (λ n. (s.curblock_out + 1) % n) size,
        refl,
        refl,
        size,
        rw same (
            update_self s.db_out.block s.curblock_out (
              pass_block c s.num_coarse_chan (s.db_in.block s.curblock_in)
                (s.db_out.block s.curblock_out))),
        λ j ne. rw same (
            update_ne s.db_out.block s.curblock_out j
              (pass_block c s.num_coarse_chan (s.db_in.block s.curblock_in)
                (s.db_out.block s.curblock_out))
              (λ p. ne (sym p))),
      )

  gpu_round-told :
      (fuel : ℕ) (s : GpuState hp) {t : GpuState hp}
      → gpu_round c fuel s ≡ ok t
      → t.gpumcnt ≡ (s.db_in.block s.curblock_in).header.mcnt
  unfolding gpu_round
  gpu_round-told fuel s {t} e =
      let (h, got, e1) =
        >>=-eq-ok (wait_loop fuel (λ h. hp.wait_filled h s.curblock_in) s.db_in.header) _ e in
      let (d, free, e2) =
        >>=-eq-ok (await_output c fuel (s.db_in.block s.curblock_in).header.mcnt s) _ e1 in
      rw (← ok-injective e2) refl

  -- A round ends if both waits succeed after fewer timeouts than the bound, whether it makes the second
  -- one or not.
  pub gpu_round-returns :
      (fuel : ℕ) (s : GpuState hp) {n m : ℕ} {h : hp.Header} {d : OutputDatabuf hp}
      → Succeeds (λ x. hp.wait_filled x s.curblock_in) n s.db_in.header h
      → n < fuel
      → Succeeds (λ db. s6_output_databuf_wait_free db s.curblock_out) m s.db_out d
      → m < fuel
      → (t : GpuState hp) × (gpu_round c fuel s ≡ ok t)
  unfolding gpu_round await_output
  gpu_round-returns fuel s filled in_time free in_time' =
      elim (Bool-cases (leb s.last_mcount (s.db_in.block s.curblock_in).header.mcnt)) [
        | inl forward ↦
            rw
              (
                wait_loop-Succeeds _ fuel filled in_time,
                forward,
                wait_loop-Succeeds _ fuel free in_time',
              )
              (_, refl)
        | inr back ↦ rw (wait_loop-Succeeds _ fuel filled in_time, back) (_, refl)
      ]

-- For SOURCE_FAST, with at least one coarse channel: every round that ends takes the next input block and
-- the next output block of their rings. The output block gets the header of the input block, the hit
-- counts excepted, and all bytes of its data. Every other block of both buffers is as before, and the
-- status buffer is told the mcnt of the block.
pub gpu_round-passes_fast :
    (n : ℕ) {hp : Hashpipe} (fuel : ℕ) (s : GpuState hp) {t : GpuState hp}
    → s.num_coarse_chan ≢ 0
    → gpu_round (fast_of n) fuel s ≡ ok t
    → let i = s.db_in.block s.curblock_in in
      let p = t.db_out.block s.curblock_out in
      (t.curblock_in ≡ (s.curblock_in + 1) % s.db_in.n_block)
      × (t.curblock_out ≡ (s.curblock_out + 1) % s.db_out.n_block)
      × (t.db_in.block ≡ s.db_in.block)
      × ((j : ℕ) → j ≢ s.curblock_out → t.db_out.block j ≡ s.db_out.block j)
      × (t.gpumcnt ≡ i.header.mcnt)
      × (p.header.mcnt ≡ i.header.mcnt)
      × (p.header.sid ≡ i.header.sid)
      × (p.header.coarse_chan_id ≡ i.header.coarse_chan_id)
      × (p.header.num_coarse_chan ≡ i.header.num_coarse_chan)
      × (p.header.time_sec ≡ i.header.time_sec)
      × (p.header.time_nsec ≡ i.header.time_nsec)
      × (p.header.missed_pkts 0 ≡ i.header.missed_pkts 0)
      × ((j : ℕ) → p.header.nhits j ≡ (s.db_out.block s.curblock_out).header.nhits j)
      × ((j : ℕ) → j < n_data_bytes_per_block (fast_of n) → p.bytes j ≡ i.bytes j)
gpu_round-passes_fast n {hp} fuel s some_chan e =
    let (next_in, next_out, same_in, _, _, passes, same_out) =
      gpu_round-passes (fast_of n) fuel s e in
    let (mcnt, sid, chan, chans, sec, nsec, missed, hits, bytes) =
      pass_block-fast n s.num_coarse_chan (s.db_in.block s.curblock_in)
        (s.db_out.block s.curblock_out) some_chan in
    (
      next_in,
      next_out,
      same_in,
      same_out,
      gpu_round-told (fast_of n) fuel s e,
      rw passes mcnt,
      rw passes sid,
      rw passes chan,
      rw passes chans,
      rw passes sec,
      rw passes nsec,
      rw passes missed,
      rw passes hits,
      rw passes bytes,
    )
