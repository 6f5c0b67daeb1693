-- ===== src/Net/Confined.antt =====
-- The net thread on packets that fit in their places: it implements the window, and writes to no memory but
-- that of the blocks.
use serendip6_reobs.Base.{
  ℕ, ◌%◌, ◌≡◌, ◌≢◌, refl, sym, ap, ◌∙◌, Option, ok, ok-injective, >>=-eq-ok, arith, List, [], ◌∷◌,
  ◌==◌, Bool, true, false, Bool-cases, inl, inr, if◌then◌else◌,
}
use serendip6_reobs.Config.{Config}
use serendip6_reobs.Databuf.{Rv, Hashpipe, InputDatabuf}
use serendip6_reobs.Databuf.Input.{s6_input_databuf_busywait_free}
use serendip6_reobs.Window.{Window, move, moves, hands_over, all_handed_over}
use serendip6_reobs.Window.Order.{InTurn}
use serendip6_reobs.Packets.{no_block, semaphores_of, semaphores_along, semaphores_at_start}
use serendip6_reobs.Packets.Stats.{collect}
use serendip6_reobs.Packets.Ledger.{proper, held_at_start}
use serendip6_reobs.Net.{UdpPacket, NetState, Status}
use serendip6_reobs.Net.Copy.{get_header}
use serendip6_reobs.Net.Process.{process_packet}
use serendip6_reobs.Net.Ring.{IsUsable, CallsSucceed}
use serendip6_reobs.Net.Trace.{prepared, shape, Follows, netmcnt_of, process_packet-Moves_net}
use serendip6_reobs.Net.Benchmark.{
  s6_memcpy_benchmark, packet_size-s6_memcpy_benchmark, bench_packet_size,
}
use serendip6_reobs.Net.Untouched.{s6_memcpy_benchmark-Untouched}
use serendip6_reobs.Net.Run.{
  Sprintf, Loop, Received, packets_of, recv_cnt_of, first_of, bad_packet_size, process_vector,
  log_vector, publish, round, start,
}
use serendip6_reobs.Net.Logging.{log_vector-pkt}
use serendip6_reobs.Net.Start.{
  at_start, at_zero, mcnts_of, AreUdpPackets, started_blocks, start_blocks_lem, started-Follows,
  prepared-Follows,
}
use serendip6_reobs.Net.Rounds.{rounds, run, all_packets, AreReceived, run-moves, round-Follows}
use serendip6_reobs.Net.Bounds.{Fits, SameBehind, process_packet-SameBehind}

-- All the packets fit.
abbrev pub AllFit : Config → List UdpPacket → Type 0
AllFit c [] = Unit
AllFit c (p ∷ ps) = Fits c p × AllFit c ps

-- What recvmmsg gives: packets that fit, and never a count of 0.
abbrev pub VectorsFit : Config → List (Received × Option ℕ) → Type 0
VectorsFit c [] = Unit
VectorsFit c ((r, asked) ∷ rs) = AllFit c (packets_of r) × (recv_cnt_of r ≢ 0) × VectorsFit c rs

AllFit-AreUdpPackets : (c : Config) (ps : List UdpPacket) → AllFit c ps → AreUdpPackets ps
AllFit-AreUdpPackets c [] b = tt
AllFit-AreUdpPackets c (p ∷ ps) b = (b.0.bytes, AllFit-AreUdpPackets c ps b.1)

VectorsFit-AreReceived :
    (c : Config) (rs : List (Received × Option ℕ)) → VectorsFit c rs → AreReceived rs
VectorsFit-AreReceived c [] b = tt
VectorsFit-AreReceived c ((r, asked) ∷ rs) (fit, got, more) =
    (AllFit-AreUdpPackets c (packets_of r) fit, got, VectorsFit-AreReceived c rs more)

-- What is reported after a vector is not part of the state of the packets.
pkt-published :
    {hp : Hashpipe} (none_done : Bool) (mcnt : ℕ) (asked : Option ℕ) (l : Loop hp) {l1 : Loop hp}
    → (if none_done then l else publish mcnt asked l) ≡ l1
    → l1.pkt ≡ l.pkt
unfolding publish
pkt-published true mcnt asked l e = rw (← e) refl
pkt-published false mcnt asked l e = rw (← e) refl

module _ {c : Config} (u : IsUsable c) {hp : Hashpipe} (k : CallsSucceed hp) where
  open u use {mcnts}

  -- In a usable build, while the hashpipe calls succeed: process_packet implements the window. On a packet
  -- that is no longer than its place and no shorter than a header and a checksum, from a state that stands
  -- for a window once it is initialized, it returns. The new state stands for the window moved by the
  -- packet's mcnt. What it returns is the first mcnt of the block that the window hands over, or -1 if
  -- there is none or the source ID is out of range. The only calls on semaphores are, if a block is handed
  -- over, one that sets it filled and one that waits for the block after the next. And nothing behind the
  -- places of the packets in the data of a block is written.
  pub process_packet-Moves_fitting :
      (s : NetState hp) {w : Window} (p : UdpPacket)
      → Fits c p
      → Follows c (prepared c s) w
      → let h = get_header p in
        let handed = hands_over (shape c) h.mcnt w in
        (t : NetState hp) × (netmcnt : ℕ) × (process_packet c p s ≡ ok (t, netmcnt))
        × Follows c t (move (shape c) h.mcnt w)
        × (netmcnt ≡ netmcnt_of c h.sid handed)
        × (t.db.header ≡ semaphores_of c hp handed s.db.header)
        × SameBehind c s.db t.db
  process_packet-Moves_fitting s p fits fo =
      let (t, r, e, fo1, returned, sems) = process_packet-Moves_net u k s p fits.bytes fo in
      (t, r, e, fo1, returned, sems, process_packet-SameBehind u k s p fits fo.ring e)

  process_vector-SameBehind :
      (ps : List UdpPacket) (mcnt : ℕ) (s : NetState hp) {t : NetState hp} {r : ℕ} (w : Window)
      → AllFit c ps
      → Follows c (prepared c s) w
      → process_vector c ps mcnt s ≡ ok (t, r)
      → SameBehind c s.db t.db
  unfolding process_vector
  process_vector-SameBehind [] mcnt s w b fo e i j far = rw (← ap (λ x. x.0) (ok-injective e)) refl
  process_vector-SameBehind (p ∷ ps) mcnt s w b fo e i j far =
      let (s1, this, e1, fo1, _, _, behind) = process_packet-Moves_fitting s p b.0 fo in
      process_vector-SameBehind ps (if this == no_block then mcnt else this) s1
        (move (shape c) (get_header p).mcnt w) b.1 (prepared-Follows u k fo1) (rw e1 at e) i j far
      ∙ behind i j far

  round-SameBehind :
      (sprintf : Sprintf) (r : Received) (asked : Option ℕ) (l : Loop hp) {l1 : Loop hp}
      (w : Window)
      → AllFit c (packets_of r)
      → recv_cnt_of r ≢ 0
      → Follows c (prepared c l.pkt) w
      → round c sprintf r asked l ≡ ok l1
      → SameBehind c l.pkt.db l1.pkt.db
  unfolding round
  round-SameBehind sprintf r asked l w b got fo e i j far =
      elim (Bool-cases (bad_packet_size c l.packet_size)) [
        | inl bad ↦ rw (← ok-injective (rw bad at e)) refl
        | inr good ↦
            (let (x, processed, e1) =
                >>=-eq-ok (process_vector c (packets_of r) no_block l.pkt) _ (rw good at e) in
              let before = record l {
                pkt = x.0;
                stats = collect r.times l.stats;
                head = first_of l.head (packets_of r);
              } in
              let (l2, logged, e2) = >>=-eq-ok (log_vector sprintf r before) _ e1 in
              let (l3, e3, same, _) = log_vector-pkt sprintf r before got in
              let pkt : l2.pkt ≡ x.0 = ap (λ y. y.pkt) (ok-injective (sym logged ∙ e3)) ∙ same in
              let behind =
                process_vector-SameBehind (packets_of r) no_block l.pkt w b fo processed i j far in
              ap (λ (s : NetState hp). (s.db.block i).bytes j)
                (pkt-published (x.1 == no_block) x.1 asked l2 (ok-injective e2) ∙ pkt)
              ∙ behind)
      ]

  rounds-SameBehind :
      (sprintf : Sprintf) (rs : List (Received × Option ℕ)) (l : Loop hp) {l1 : Loop hp}
      (w : Window)
      → c.n_coarse_chan % 2 ≡ 0
      → VectorsFit c rs
      → l.packet_size ≡ bench_packet_size c
      → Follows c (prepared c l.pkt) w
      → rounds c sprintf rs l ≡ ok l1
      → SameBehind c l.pkt.db l1.pkt.db
  unfolding rounds
  rounds-SameBehind sprintf [] l w even b size fo e i j far = rw (← ok-injective e) refl
  rounds-SameBehind sprintf ((r, asked) ∷ rs) l w even (fit, got, more) size fo e i j far =
      let (l2, e1, size1, fo1, _) =
        round-Follows u k sprintf r asked l w even (AllFit-AreUdpPackets c (packets_of r) fit) got
          size fo in
      rounds-SameBehind sprintf rs l2 (moves (shape c) (mcnts_of (packets_of r)) w) even more size1
        fo1 (rw e1 at e) i j far
      ∙ round-SameBehind sprintf r asked l w fit got fo e1 i j far

  bytes-started :
      (db : InputDatabuf hp) (i : ℕ) → ((started_blocks u k db).block i).bytes ≡ (db.block i).bytes
  unfolding s6_input_databuf_busywait_free
  bytes-started db i = ground arith

  -- In a usable build with an even number of coarse channels, while the hashpipe calls succeed and
  -- recvmmsg never gives a count of 0: the net thread implements the window. From its start, with the
  -- benchmark, every sequence of rounds is run to its end, if no packet is longer than its place or shorter
  -- than a header and a checksum; every packet of every vector is processed; the state that is left stands
  -- for the window that their mcnts lead to from block 0; and the blocks that this window hands over
  -- meanwhile are those of the buffer in turn, from the first one on, across all resets. The semaphores are
  -- used for these blocks and at the start, and for nothing else: so no block is set filled that the thread
  -- does not hold, and none is waited for that it holds. And nothing behind the places of the packets in the
  -- data of a block is ever written.
  pub run-moves_fitting :
      (sprintf : Sprintf) (st : Status) (p : UdpPacket) (db : InputDatabuf hp)
      (rs : List (Received × Option ℕ)) (l : Loop hp)
      → c.n_coarse_chan % 2 ≡ 0
      → VectorsFit c rs
      → let mcnts = mcnts_of (all_packets rs) in
        (l1 : Loop hp) × (run c sprintf Rv.hashpipe_ok st p db rs l ≡ ok l1)
        × Follows c (prepared c l1.pkt) (moves (shape c) mcnts at_zero)
        × InTurn c.n_input_blocks 0 (all_handed_over (shape c) mcnts at_zero)
        × (l1.pkt.db.header
            ≡ semaphores_along c hp
                (all_handed_over (shape c) mcnts at_zero)
                (semaphores_at_start hp db.header))
        × (proper c.n_input_blocks (all_handed_over (shape c) mcnts at_zero) held_at_start ≡ true)
        × SameBehind c db l1.pkt.db
  unfolding run start
  run-moves_fitting sprintf st p db rs l even b =
      let (l1, e, fo, turn, sems, held) =
        run-moves u k sprintf st p db rs l even (VectorsFit-AreReceived c rs b) in
      let (db1, q) = s6_memcpy_benchmark c (started_blocks u k db) p in
      (
        l1,
        e,
        fo,
        turn,
        sems,
        held,
        λ i j far.
            rounds-SameBehind sprintf rs
              (record l { pkt = at_start st db1; packet_size = q.packet_size }) at_zero even b
              (packet_size-s6_memcpy_benchmark c (started_blocks u k db) p)
              (started-Follows u k st p db) (rw (start_blocks_lem u k db) at e) i j far
            ∙ (s6_memcpy_benchmark-Untouched c (started_blocks u k db) p (omega arith)).behind i j
                far
            ∙ ap (λ (x : ℕ → ℕ). x j) (bytes-started db i),
      )
