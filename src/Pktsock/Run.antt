-- ===== src/Pktsock/Run.antt =====
-- run of src/s6_pktsock_thread.cpp: the start, and one round of the main loop. The frames come from
-- hashpipe's packet socket, the times from clock_gettime; both are arguments. The keys of the status
-- buffer that hold floats are left out, and of the voltage dump only that it is made.
use serendip6_reobs.Base.{
  ℕ, ◌+◌, ◌-◌, ◌*◌, ◌%◌, Bool, Option, some, Result, ok, err, Fault, ◌>>=◌, ◌==◌, ◌||◌, not, ltb,
  if◌then◌else◌, add64,
}
use serendip6_reobs.Config.{Config}
use serendip6_reobs.Databuf.{Rv, Hashpipe, InputDatabuf}
use serendip6_reobs.Databuf.Input.{s6_input_databuf_busywait_free}
use serendip6_reobs.Packets.{no_block}
use serendip6_reobs.Packets.Stats.{Times, Stats, no_stats, collect}
use serendip6_reobs.Pktsock.{Frame, PktState, nm, n_bytes_per_chan}
use serendip6_reobs.Pktsock.Block.{initialize_block}
use serendip6_reobs.Pktsock.Process.{process_packet}

-- The keys that the loop writes when a block is finished; `dumpvolt` is read as well.
pub record Report : Type 0 where
  pub netmcnt : Option ℕ
  pub netmin : Times
  pub netmax : Times
  pub netpkts : ℕ
  pub netdrops : ℕ
  pub netpkttl : ℕ
  pub netdrptl : ℕ
  pub dumpvolt : ℕ

-- The state of the loop. `held` counts the frames of the ring that were received and not given back
-- by hashpipe_pktsock_release_frame, `bad_sizes` the warnings about a size, `dumps` the voltage dumps.
pub record Loop (hp : Hashpipe) : Type 0 where
  pub pkt : PktState hp
  pub stats : Stats
  pub report : Report
  pub held : ℕ
  pub bad_sizes : ℕ
  pub dumps : ℕ

-- A block is finished: `pkts` and `drops` are what hashpipe_pktsock_stats gives.
unfoldable pub publish : {hp : Hashpipe} → (mcnt pkts drops : ℕ) → Loop hp → Loop hp
publish mcnt pkts drops l =
    let dump = not (l.report.dumpvolt == 0) in
    record l {
      report = record {
        netmcnt = some mcnt;
        netmin = l.stats.least;
        netmax = l.stats.most;
        netpkts = pkts;
        netdrops = drops;
        netpkttl = add64 l.report.netpkttl pkts;
        netdrptl = add64 l.report.netdrptl drops;
        dumpvolt = if dump then 0 else l.report.dumpvolt;
      };
      stats = no_stats;
      dumps = if dump then l.dumps + 1 else l.dumps;
    }

module _ (c : Config) where
  -- size_t max_packet_size
  abbrev pub max_packet_size : ℕ
  max_packet_size = 8 + c.n_coarse_chan * n_bytes_per_chan c * c.n_spectra_per_packet + 8 + 16

  -- Whether the size of a frame is refused. A UDP size below 8 makes `packet_size` negative, which is
  -- below 16 as well.
  unfoldable pub wrong_size : Frame → Bool
  wrong_size f =
      let packet_size = f.udp_size - 8 in
      ltb packet_size 16 || ltb max_packet_size packet_size || not (packet_size % 8 == 0)

  module _ {hp : Hashpipe} where
    -- The first two blocks are acquired and started.
    unfoldable pub start_blocks : InputDatabuf hp → Result (InputDatabuf hp)
    start_blocks db0 = do
      let (rv0, db1) = s6_input_databuf_busywait_free db0 0
      db2 ← elim rv0 [ Rv.hashpipe_ok ↦ ok db1 | _ ↦ err Fault.thread_exit ]
      let (rv1, db3) = s6_input_databuf_busywait_free db2 1
      db4 ← elim rv1 [ Rv.hashpipe_ok ↦ ok db3 | _ ↦ err Fault.thread_exit ]
      db5 ← initialize_block c 0 0 0 0 db4
      initialize_block c (nm c) 0 0 0 db5

    -- One round of the loop with a frame. A frame of a wrong size is skipped by `continue`.
    unfoldable pub round :
        (now : ℕ × ℕ) → Times → (pkts drops : ℕ) → Frame → Loop hp → Result (Loop hp)
    round now t pkts drops f l =
        let got = record l { held = l.held + 1 } in
        if wrong_size f then ok (record got { bad_sizes = got.bad_sizes + 1 }) else (do
          (pkt, mcnt) ← process_packet c now f got.pkt
          let l1 = record got { pkt = pkt; held = got.held - 1; stats = collect t got.stats }
          ok (if mcnt == no_block then l1 else publish mcnt pkts drops l1))
