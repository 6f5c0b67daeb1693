-- ===== src/Net/Run.antt =====
-- run of src/s6_net_thread.cpp: the start, and one round of the main loop. The packets come from
-- recvmmsg, a vector at a time, and the times from clock_gettime; both are arguments, and so is the text
-- that sprintf makes of the numbers of a log line. The keys of the status buffer that hold floats are
-- left out.
use serendip6_reobs.Base.{
  ℕ, ◌+◌, ◌-◌, ◌*◌, ◌/◌, ◌%◌, ◌^◌, Bool, Option, none, some, List, [], ◌∷◌, Result, ok, err, Fault,
  ◌>>=◌, ◌==◌, ◌||◌, not, ltb, if◌then◌else◌, add64, length,
}
use serendip6_reobs.Config.{Config}
use serendip6_reobs.Databuf.{Rv, Hashpipe, InputDatabuf}
use serendip6_reobs.Databuf.Input.{s6_input_databuf_busywait_free}
use serendip6_reobs.Packets.{no_block}
use serendip6_reobs.Packets.Stats.{Times, Stats, no_stats, collect}
use serendip6_reobs.Logger.{Log, logger}
use serendip6_reobs.Net.{UdpPacket, NetState, nm, n_bytes_per_chan}
use serendip6_reobs.Net.Copy.{get_header}
use serendip6_reobs.Net.Block.{initialize_block}
use serendip6_reobs.Net.Benchmark.{s6_memcpy_benchmark}
use serendip6_reobs.Net.Process.{process_packet}

-- The numbers of a log line, in the order of the line.
pub record LogNumbers : Type 0 where
  pub wait_loop_cnt : ℕ
  pub recv_cnt : ℕ
  pub wait_ns : ℕ
  pub recv_ns : ℕ
  pub proc_ns : ℕ
  pub sum_ns : ℕ
  pub runtime_ns : ℕ
  pub mcnt : ℕ
  pub sid : ℕ

-- What sprintf makes of a line number and of the numbers of a log line.
pub record Sprintf : Type 0 where
  pub line_number : ℕ → List ℕ
  pub log_message : LogNumbers → List ℕ

-- The keys that the loop writes; `netlogln` is read as well, and others may write it.
pub record Report : Type 0 where
  pub netmcnt : Option ℕ
  pub netmin : Times
  pub netmax : Times
  pub netlogln : ℕ

-- The state of the loop. `packet_size` is that of the variable `p`, `head` is packet_bufs[0], and
-- `net_log_lines` is not negative.
pub record Loop (hp : Hashpipe) : Type 0 where
  pub pkt : NetState hp
  pub packet_size : ℕ
  pub head : UdpPacket
  pub stats : Stats
  pub report : Report
  pub log : Log
  pub net_log_lines : ℕ
  pub first_log_line : ℕ

-- What recvmmsg and the clock give in a round: no vector is a recv_cnt of -1 with an errno that ends the
-- wait, and `runtime_ns` is the time since the last log line.
pub record Received : Type 0 where
  pub wait_loop_cnt : ℕ
  pub vector : Option (List UdpPacket)
  pub times : Times
  pub runtime_ns : ℕ

abbrev pub packets_of : Received → List UdpPacket
packets_of r = elim r.vector [ none ↦ [] | some ps ↦ ps ]

-- The int recv_cnt, as a uint64_t.
abbrev pub recv_cnt_of : Received → ℕ
recv_cnt_of r = elim r.vector [ none ↦ 2 ^ 64 - 1 | some ps ↦ length ps ]

abbrev pub first_of : UdpPacket → List UdpPacket → UdpPacket
first_of p [] = p
first_of p (q ∷ qs) = q

module _ (c : Config) where
  -- up.packet_size
  abbrev pub up_packet_size : ℕ
  up_packet_size = 8 + c.n_coarse_chan * n_bytes_per_chan + 8

  -- The test of p.packet_size, whose warnings are compiled out. Its -1 is not represented.
  unfoldable pub bad_packet_size : (packet_size : ℕ) → Bool
  bad_packet_size packet_size =
      ltb packet_size 16 || ltb up_packet_size packet_size || not (packet_size % 8 == 0)

  module _ {hp : Hashpipe} where
    -- The first two blocks are acquired and started. `opened` is what hashpipe_udp_init returns.
    unfoldable pub start_blocks : (opened : Rv) → InputDatabuf hp → Result (InputDatabuf hp)
    start_blocks opened db = do
      db0 ← elim opened [ Rv.hashpipe_ok ↦ ok db | _ ↦ err Fault.thread_exit ]
      let (rv0, db1) = s6_input_databuf_busywait_free db0 0
      db2 ← elim rv0 [ Rv.hashpipe_ok ↦ ok db1 | _ ↦ err Fault.thread_exit ]
      let (rv1, db3) = s6_input_databuf_busywait_free db2 1
      db4 ← elim rv1 [ Rv.hashpipe_ok ↦ ok db3 | _ ↦ err Fault.thread_exit ]
      db5 ← initialize_block c 0 0 0 db4
      initialize_block c (nm c) 0 0 db5

    -- All that run does before its main loop: the buffer, and the packet `p` of the benchmark.
    unfoldable pub start :
        (opened : Rv) → UdpPacket → InputDatabuf hp → Result (InputDatabuf hp × UdpPacket)
    start opened p db = do db1 ← start_blocks opened db; ok (s6_memcpy_benchmark c db1 p)

    -- The loop over the received packets, from the value of `mcnt` so far.
    unfoldable pub process_vector :
        List UdpPacket → (mcnt : ℕ) → NetState hp → Result (NetState hp × ℕ)
    process_vector [] mcnt s = ok (s, mcnt)
    process_vector (p ∷ ps) mcnt s = do
      (s1, this_mcnt) ← process_packet c p s
      process_vector ps (if this_mcnt == no_block then mcnt else this_mcnt) s1

-- The numbers of the log line for a vector.
unfoldable pub log_numbers : Received → (runtime_ns : ℕ) → UdpPacket → LogNumbers
log_numbers r runtime_ns head =
    let n = recv_cnt_of r in
    let h = get_header head in
    record {
      wait_loop_cnt = r.wait_loop_cnt;
      recv_cnt = n;
      wait_ns = r.times.wait_ns;
      recv_ns = r.times.recv_ns / n;
      proc_ns = r.times.proc_ns / n;
      sum_ns = add64 (add64 r.times.wait_ns (r.times.recv_ns / n)) (r.times.proc_ns / n);
      runtime_ns = runtime_ns / n;
      mcnt = h.mcnt;
      sid = h.sid;
    }

module _ (sprintf : Sprintf) {hp : Hashpipe} where
  -- The in-memory log: a line while `net_log_lines` is not 0. The first division by recv_cnt traps if it
  -- is 0.
  unfoldable pub log_vector : Received → Loop hp → Result (Loop hp)
  log_vector r l =
      if l.net_log_lines == 0
      then ok l
      else if recv_cnt_of r == 0
      then err Fault.div_by_zero
      else (let runtime_ns = if l.first_log_line == 0 then r.runtime_ns else 0 in
          let message = sprintf.log_message (log_numbers r runtime_ns l.head) in
          let (log, lines) = logger sprintf.line_number message l.net_log_lines l.log in
          ok (
            if lines == l.net_log_lines
            then record l {
              log = log;
              net_log_lines = 0;
              first_log_line = 1;
              report = record (l.report) { netlogln = 0 };
            }
            else record l { log = log; first_log_line = 0 }))

-- A block is finished: `asked` is what others have written to NETLOGLN meanwhile, if anything.
unfoldable pub publish : {hp : Hashpipe} → (mcnt : ℕ) (asked : Option ℕ) → Loop hp → Loop hp
publish mcnt asked l =
    let netlogln : ℕ = elim asked [ none ↦ l.report.netlogln | some n ↦ n ] in
    record l {
      report = record {
        netmcnt = some mcnt;
        netmin = l.stats.least;
        netmax = l.stats.most;
        netlogln = netlogln;
      };
      net_log_lines = netlogln;
      stats = no_stats;
    }

-- One round of the loop.
unfoldable pub round :
    (c : Config) (sprintf : Sprintf) {hp : Hashpipe}
    → Received
    → (asked : Option ℕ) → Loop hp
    → Result (Loop hp)
round c sprintf r asked l = if bad_packet_size c l.packet_size then ok l else (do
  (pkt, mcnt) ← process_vector c (packets_of r) no_block l.pkt
  l1 ← log_vector sprintf r (record l {
    pkt = pkt;
    stats = collect r.times l.stats;
    head = first_of l.head (packets_of r);
  })
  ok (if mcnt == no_block then l1 else publish mcnt asked l1))
