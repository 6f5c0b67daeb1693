-- ===== src/Net/Rounds.antt =====
-- From the start of the thread through any number of rounds of its main loop.
use serendip6_reobs.Base.{
  ℕ, ◌%◌, ◌<◌, ◌≡◌, ◌≢◌, refl, ◌∙◌, Option, Result, ok, ◌>>=◌, arith, List, [], ◌∷◌, ◌++◌, ◌==◌,
  false, Bool-cases, inl, inr,
}
use serendip6_reobs.Window.{Window, move, moves, all_handed_over}
use serendip6_reobs.Window.Order.{InTurn, all_handed_over-InTurn}
use serendip6_reobs.Config.{Config}
use serendip6_reobs.Databuf.{Rv, Hashpipe, InputDatabuf}
use serendip6_reobs.Packets.{no_block}
use serendip6_reobs.Packets.Stats.{collect}
use serendip6_reobs.Net.{UdpPacket, Status}
use serendip6_reobs.Net.Copy.{get_header}
use serendip6_reobs.Net.Benchmark.{
  s6_memcpy_benchmark, bench_packet_size, packet_size-s6_memcpy_benchmark,
}
use serendip6_reobs.Net.Ring.{IsUsable, CallsSucceed}
use serendip6_reobs.Net.Trace.{prepared, Follows, shape}
use serendip6_reobs.Net.Logging.{log_vector-pkt}
use serendip6_reobs.Net.Run.{
  Sprintf, Loop, Received, packets_of, recv_cnt_of, first_of, bad_packet_size, start, publish,
  round,
}
use serendip6_reobs.Net.Start.{
  at_start, AreUdpPackets, mcnts_of, at_zero, reported, started_blocks, start_blocks_lem,
  started-Follows, process_vector-Follows,
}
use serendip6_reobs.Packets.{semaphores_of, semaphores_along, semaphores_at_start}
use serendip6_reobs.Base.{true}
use serendip6_reobs.Packets.Ledger.{proper, held_at_start, held_at_start-Holds, InTurn-proper}
use serendip6_reobs.Packets.Semaphores.{semaphores_along-step}
use serendip6_reobs.Net.Start.{semaphores-started}
use serendip6_reobs.Window.{hands_over}
use serendip6_reobs.Base.{sym, ap}

-- The rounds of the main loop.
unfoldable pub rounds :
    (c : Config) (sprintf : Sprintf) {hp : Hashpipe}
    → List (Received × Option ℕ)
    → Loop hp
    → Result (Loop hp)
rounds c sprintf [] l = ok l
rounds c sprintf ((r, asked) ∷ rs) l = do l1 ← round c sprintf r asked l; rounds c sprintf rs l1

-- The thread: its start, and its rounds from there. Of `l` only what the start does not set is used.
unfoldable pub run :
    (c : Config) (sprintf : Sprintf) {hp : Hashpipe} (opened : Rv) (st : Status)
    → UdpPacket
    → InputDatabuf hp
    → List (Received × Option ℕ)
    → Loop hp
    → Result (Loop hp)
run c sprintf opened st p db rs l = do
  (db1, q) ← start c opened p db
  rounds c sprintf rs (record l { pkt = at_start st db1; packet_size = q.packet_size })

-- What recvmmsg gives: bytes, and never a count of 0.
abbrev pub AreReceived : List (Received × Option ℕ) → Type 0
AreReceived [] = Unit
AreReceived ((r, asked) ∷ rs) = AreUdpPackets (packets_of r) × (recv_cnt_of r ≢ 0) × AreReceived rs

-- All the packets, in order.
abbrev pub all_packets : List (Received × Option ℕ) → List UdpPacket
all_packets [] = []
all_packets ((r, asked) ∷ rs) = packets_of r ++ all_packets rs

semaphores-append :
    (c : Config) (hp : Hashpipe) (ps qs : List UdpPacket) (w : Window) (h : hp.Header)
    → semaphores_along c hp (all_handed_over (shape c) (mcnts_of (ps ++ qs)) w) h
      ≡ semaphores_along c hp
          (all_handed_over (shape c) (mcnts_of qs) (moves (shape c) (mcnts_of ps) w))
          (semaphores_along c hp (all_handed_over (shape c) (mcnts_of ps) w) h)
unfolding moves all_handed_over
semaphores-append c hp [] qs w h = refl
semaphores-append c hp (p ∷ ps) qs w h =
    let first = (get_header p).mcnt in
    semaphores_along-step c hp (shape c) first (mcnts_of (ps ++ qs)) w h
    ∙ semaphores-append c hp ps qs (move (shape c) first w)
        (semaphores_of c hp (hands_over (shape c) first w) h)
    ∙ ap
        (semaphores_along c hp (
          all_handed_over (shape c) (mcnts_of qs)
            (moves (shape c) (mcnts_of ps) (move (shape c) first w))))
        (sym (semaphores_along-step c hp (shape c) first (mcnts_of ps) w h))

moves-append :
    (c : Config) (ps qs : List UdpPacket) (w : Window)
    → moves (shape c) (mcnts_of (ps ++ qs)) w
      ≡ moves (shape c) (mcnts_of qs) (moves (shape c) (mcnts_of ps) w)
unfolding moves
moves-append c [] qs w = refl
moves-append c (p ∷ ps) qs w = moves-append c ps qs (move (shape c) (get_header p).mcnt w)

-- The packet size that the benchmark has left in `p` passes the test of the main loop in every round.
bench_packet_size-passes :
    (c : Config) → c.n_coarse_chan % 2 ≡ 0 → bad_packet_size c (bench_packet_size c) ≡ false
unfolding bad_packet_size
bench_packet_size-passes c even = ground arith

module _ {c : Config} (u : IsUsable c) {hp : Hashpipe} (k : CallsSucceed hp) where
  open u use {mcnts, blocks, small}

  -- A round of the loop, after the benchmark: the state of the packets stands for the window that the
  -- vector leads to, and the size that the test reads is as before.
  pub round-Follows :
      (sprintf : Sprintf) (r : Received) (asked : Option ℕ) (l : Loop hp) (w : Window)
      → c.n_coarse_chan % 2 ≡ 0
      → AreUdpPackets (packets_of r)
      → recv_cnt_of r ≢ 0
      → l.packet_size ≡ bench_packet_size c
      → Follows c (prepared c l.pkt) w
      → (l1 : Loop hp) × (round c sprintf r asked l ≡ ok l1)
        × (l1.packet_size ≡ bench_packet_size c)
        × Follows c (prepared c l1.pkt) (moves (shape c) (mcnts_of (packets_of r)) w)
        × (l1.pkt.db.header
            ≡ semaphores_along c hp
                (all_handed_over (shape c) (mcnts_of (packets_of r)) w)
                l.pkt.db.header)
  unfolding round publish
  round-Follows sprintf r asked l w even b got size fo =
      let (t, e, fo1, sems) = process_vector-Follows u k (packets_of r) no_block l.pkt w b fo in
      let passes : bad_packet_size c l.packet_size ≡ false =
        rw size (bench_packet_size-passes c even) in
      let (l1, e1, pkt, size1) =
        log_vector-pkt sprintf r
          (record l {
            pkt = t;
            stats = collect r.times l.stats;
            head = first_of l.head (packets_of r);
          })
          got in
      rw (passes, e, e1)
        (elim (Bool-cases (reported c (packets_of r) no_block w == no_block)) [
          | inl none_done ↦ rw none_done (l1, refl, size1 ∙ size, rw pkt fo1, rw pkt sems)
          | inr one_done ↦
              rw one_done (publish _ asked l1, refl, size1 ∙ size, rw pkt fo1, rw pkt sems)
        ])

  rounds-Follows :
      (sprintf : Sprintf) (rs : List (Received × Option ℕ)) (l : Loop hp) (w : Window)
      → c.n_coarse_chan % 2 ≡ 0
      → AreReceived rs
      → l.packet_size ≡ bench_packet_size c
      → Follows c (prepared c l.pkt) w
      → (l1 : Loop hp) × (rounds c sprintf rs l ≡ ok l1)
        × Follows c (prepared c l1.pkt) (moves (shape c) (mcnts_of (all_packets rs)) w)
        × (l1.pkt.db.header
            ≡ semaphores_along c hp
                (all_handed_over (shape c) (mcnts_of (all_packets rs)) w)
                l.pkt.db.header)
  unfolding rounds moves all_handed_over
  rounds-Follows sprintf [] l w even b size fo = (l, refl, fo, refl)
  rounds-Follows sprintf ((r, asked) ∷ rs) l w even (bytes, got, more) size fo =
      let (l1, e, size1, fo1, sems) = round-Follows sprintf r asked l w even bytes got size fo in
      let (l2, e1, fo2, later) =
        rounds-Follows sprintf rs l1 (moves (shape c) (mcnts_of (packets_of r)) w) even more size1
          fo1 in
      (
        l2,
        rw e e1,
        rw (moves-append c (packets_of r) (all_packets rs) w) fo2,
        later
            ∙ ap
                (semaphores_along c hp (
                  all_handed_over (shape c) (mcnts_of (all_packets rs))
                    (moves (shape c) (mcnts_of (packets_of r)) w)))
                sems
            ∙ sym (semaphores-append c hp (packets_of r) (all_packets rs) w l.pkt.db.header),
      )

  -- In a usable build with an even number of coarse channels, while the hashpipe calls succeed and
  -- recvmmsg gives bytes and never a count of 0: the net thread implements the window. From its start,
  -- with the benchmark, every sequence of rounds is run to its end; every packet of every vector is processed; the state that is left stands for the
  -- window that their mcnts lead to from block 0; and the blocks that this window hands over meanwhile
  -- are those of the buffer in turn, from the first one on, across all resets. The semaphores are used for
  -- these blocks and at the start, and for nothing else: so no block is set filled that the thread does not
  -- hold, and none is waited for that it holds.
  -- In the model, whose blocks do not touch: see Confined for the packets of which this is so in memory.
  pub run-moves :
      (sprintf : Sprintf) (st : Status) (p : UdpPacket) (db : InputDatabuf hp)
      (rs : List (Received × Option ℕ)) (l : Loop hp)
      → c.n_coarse_chan % 2 ≡ 0
      → AreReceived rs
      → let mcnts = mcnts_of (all_packets rs) in
        (l1 : Loop hp) × (run c sprintf Rv.hashpipe_ok st p db rs l ≡ ok l1)
        × Follows c (prepared c l1.pkt) (moves (shape c) mcnts at_zero)
        × InTurn c.n_input_blocks 0 (all_handed_over (shape c) mcnts at_zero)
        × (l1.pkt.db.header
            ≡ semaphores_along c hp
                (all_handed_over (shape c) mcnts at_zero)
                (semaphores_at_start hp db.header))
        × (proper c.n_input_blocks (all_handed_over (shape c) mcnts at_zero) held_at_start ≡ true)
  unfolding run start
  run-moves sprintf st p db rs l even b =
      let in_buffer : 0 < c.n_input_blocks = omega arith in
      let (db1, q) = s6_memcpy_benchmark c (started_blocks u k db) p in
      let turn =
        all_handed_over-InTurn (shape c) (mcnts_of (all_packets rs)) at_zero 0 in_buffer refl in
      let (l1, e, fo, sems) =
        rounds-Follows sprintf rs (record l { pkt = at_start st db1; packet_size = q.packet_size })
          at_zero even b (packet_size-s6_memcpy_benchmark c (started_blocks u k db) p)
          (started-Follows u k st p db) in
      rw (start_blocks_lem u k db) (
        l1,
        e,
        fo,
        turn,
        sems
            ∙ ap
                (semaphores_along c hp
                  (all_handed_over (shape c) (mcnts_of (all_packets rs)) at_zero))
                (semaphores-started u k p db),
        InTurn-proper c.n_input_blocks 0 _ held_at_start blocks
            (held_at_start-Holds c.n_input_blocks blocks) turn,
      )
