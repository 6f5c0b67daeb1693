-- ===== src/Pktsock/Missed.antt =====
-- The two counts of the packets of a block: the counter in its header, which goes down from the number
-- of mcnts, and the thread's own counter, which goes up.
use serendip6_reobs.Base.{
  ℕ, ◌+◌, ◌-◌, ◌*◌, ◌/◌, ◌%◌, ◌^◌, ◌≤◌, ◌<◌, ◌≡◌, refl, Result, ok, arith, sub64, add64, sub32,
  ◌>>=◌, ◌∙◌, ltb, leb, Bool-cases, inl, inr, some,
}
use serendip6_reobs.Base.Arith.{div-eq, mod-eq, succ-mod-ne}
use native.Mathlib.Decide.{dec_lt}
use serendip6_reobs.Config.{Config, fast_of}
use serendip6_reobs.Databuf.{Hashpipe}
use serendip6_reobs.Databuf.Input.{s6_input_databuf_set_filled, s6_input_databuf_busywait_free}
use serendip6_reobs.Packets.{PacketHeader, BlockInfo, no_block}
use serendip6_reobs.Pktsock.{
  Frame, PktState, Status, nm, max_out_of_seq, late_pkt_mcnt_threshold, n_packets_per_block,
}
use serendip6_reobs.Pktsock.Header.{get_header}
use serendip6_reobs.Pktsock.Block.{calc_block_indexes, count_missed}
use serendip6_reobs.Pktsock.Process.{
  take_packet, dispatch, process_packet, store_packet, late, out_of_seq,
}
use serendip6_reobs.Pktsock.Ring.{IsUsable, Inv, CallsSucceed, block_for_mcnt_lem, nm_small}
use serendip6_reobs.Pktsock.Finish.{finished, finished-Inv}
use serendip6_reobs.Pktsock.Reset.{restarted}
use serendip6_reobs.Pktsock.Invariant.{
  dispatch-expected, dispatch-late, dispatch-out_of_seq, take_packet-Inv, late-Inv, counted,
  reset_lem, reset_seq, reset_mcnt, counted-Inv,
}
use serendip6_reobs.Pktsock.Trace.{IsFrame, mcnt-get_header, prepared}

-- For SOURCE_FAST, when all packets of a block came, the status buffer gets 18 missed beams, and the
-- count of missed packets stays: the thread expects the packets of 19 beams, and receives one stream. The
-- block has at least one packet, and those of 19 beams are counted by an unsigned int.
pub missedbm-count_missed :
    (n block_i : ℕ) (b : BlockInfo) (st : Status)
    → 0 < nm (fast_of n)
    → nm (fast_of n) * 19 < 2 ^ 32
    → let after =
        count_missed
          (fast_of n)
          block_i
          (sub32 (n_packets_per_block (fast_of n)) (nm (fast_of n)))
          b
          st in
      (after.missedbm ≡ some 18) × (after.missedpk ≡ st.missedpk)
unfolding count_missed
missedbm-count_missed n block_i b st pos small =
    let missing : sub32 (n_packets_per_block (fast_of n)) (nm (fast_of n)) ≡ 18 * nm (fast_of n) =
      omega arith in
    let beams : 18 * nm (fast_of n) / nm (fast_of n) ≡ 18 =
      div-eq (18 * nm (fast_of n)) 18 (nm (fast_of n)) (omega arith) (omega arith) in
    let rest : 18 * nm (fast_of n) % nm (fast_of n) ≡ 0 =
      mod-eq (18 * nm (fast_of n)) 18 (nm (fast_of n)) (omega arith) (omega arith) ∙ omega arith in
    rw (missing, beams, rest) (refl, refl)

-- What the header of a block and the thread's counter of it say together, in words of 64 bits.
abbrev pub packets_of : {hp : Hashpipe} → ℕ → PktState hp → ℕ
packets_of b s = add64 ((s.db.block b).header.missed_pkts 0) (s.binfo.block_packet_counter b)

-- The two counts of both blocks that the thread holds add up to the number of mcnts.
pub record Counts (c : Config) {hp : Hashpipe} (s : PktState hp) (seq : ℕ) : Type 0 where
  pub this : packets_of (seq % c.n_input_blocks) s ≡ nm c
  pub next : packets_of ((seq + 1) % c.n_input_blocks) s ≡ nm c

module _ (n : ℕ) {hp : Hashpipe} where
  -- A packet with a source ID in range keeps the sum of every block.
  packets_of-take_packet :
      (b r : ℕ) (h : PacketHeader) (f : Frame) (s : PktState hp) (j : ℕ)
      → h.sid < 38
      → packets_of j (take_packet (fast_of n) b r h f s).0 ≡ packets_of j s
  unfolding take_packet calc_block_indexes store_packet
  packets_of-take_packet b r h f s j good = ground arith

  module _ (u : IsUsable (fast_of n)) where
    packets_of-finished :
        (seq : ℕ) (now : ℕ × ℕ) (h : PacketHeader) (s : PktState hp)
        → Counts (fast_of n) s seq
        → Counts (fast_of n) (finished u seq now h s) (seq + 1)
    unfolding s6_input_databuf_busywait_free s6_input_databuf_set_filled
    packets_of-finished seq now h s k = ground (arith, nm_small u, succ-mod-ne (seq + 1) 4)

    Counts-restarted :
        (q m : ℕ) (h : PacketHeader) (s : PktState hp) → Counts (fast_of n) (restarted u q m h s) q
    Counts-restarted q m h s = ground (arith, nm_small u, succ-mod-ne q 4)

module _ (n : ℕ) (u : IsUsable (fast_of n)) {hp : Hashpipe} (k : CallsSucceed hp) where
  -- The result of a step, with both invariants of the new state.
  abbrev pub CountsAfter : Result (PktState hp × ℕ) → Type 0
  CountsAfter r =
      (t : PktState hp) × (netmcnt : ℕ) × (seq : ℕ) × (r ≡ ok (t, netmcnt))
      × Inv (fast_of n) t seq
      × Counts (fast_of n) t seq

  late-Counts :
      {s : PktState hp} {seq : ℕ} (h : PacketHeader)
      → Counts (fast_of n) s seq
      → Counts (fast_of n) (late (fast_of n) h s) seq
  unfolding late
  late-Counts h counts = ground arith

  counted-Counts :
      {s : PktState hp} {seq : ℕ} (h : PacketHeader)
      → Counts (fast_of n) s seq
      → Counts (fast_of n) (counted u h s) seq
  counted-Counts h counts = ground arith

  take_packet-Counts :
      {s : PktState hp} {seq : ℕ} (b r : ℕ) (h : PacketHeader) (f : Frame)
      → h.sid < 38
      → Counts (fast_of n) s seq
      → Counts (fast_of n) (take_packet (fast_of n) b r h f s).0 seq
  take_packet-Counts {s} {seq} b r h f good counts = record {
    this = packets_of-take_packet n b r h f s (seq % 4) good ∙ counts.this;
    next = packets_of-take_packet n b r h f s ((seq + 1) % 4) good ∙ counts.next;
  }

  out_of_seq-Counts :
      {s : PktState hp} {seq : ℕ} (h : PacketHeader)
      → Inv (fast_of n) s seq
      → Counts (fast_of n) s seq
      → h.mcnt < 2 ^ 56
      → CountsAfter
          (out_of_seq (fast_of n) (h.mcnt / nm (fast_of n) % 4) h s >>= λ s1. ok (s1, no_block))
  unfolding out_of_seq
  out_of_seq-Counts {s} {seq} h i counts small_mcnt =
      elim (Bool-cases (ltb (max_out_of_seq (fast_of n)) (counted u h s).binfo.out_of_seq_cnt)) [
        | inl more ↦
            let (done, inv, _) = reset_lem u h (counted-Inv u h i) small_mcnt in
            let q = reset_seq u h (counted u h s) in
            (
              _,
              no_block,
              q,
              rw (more, done),
              inv,
              Counts-restarted n u q (reset_mcnt u h (counted u h s)) h (counted u h s),
            )
        | inr few ↦
            (counted u h s, no_block, seq, rw few, counted-Inv u h i, counted-Counts h counts)
      ]

  expected-Counts :
      {s : PktState hp} {seq : ℕ} (now : ℕ × ℕ) (h : PacketHeader) (f : Frame) (b : ℕ)
      → Inv (fast_of n) s seq
      → Counts (fast_of n) s seq
      → h.mcnt < 2 ^ 56
      → h.sid < 38
      → seq * nm (fast_of n) ≤ h.mcnt
      → h.mcnt < seq * nm (fast_of n) + 2 * nm (fast_of n)
      → CountsAfter (dispatch (fast_of n) now (sub64 h.mcnt s.binfo.mcnt_start) b h f s)
  expected-Counts {s} {seq} now h f b i counts small_mcnt good lo hi =
      rw (dispatch-expected u now h f b i k small_mcnt lo hi)
        (elim (Bool-cases (leb (3 * (nm (fast_of n) / 2)) (h.mcnt - seq * nm (fast_of n)))) [
          | inl done ↦
              let s1 = finished u seq now h s in
              let r = seq * nm (fast_of n) in
              let p = take_packet (fast_of n) b r h f s1 in
              (
                p.0,
                p.1,
                seq + 1,
                rw done,
                take_packet-Inv u b r h f (finished-Inv u now h i small_mcnt (ground arith) hi),
                take_packet-Counts b r h f good (packets_of-finished n u seq now h s counts),
              )
          | inr more ↦
              let p = take_packet (fast_of n) b no_block h f s in
              (
                p.0,
                p.1,
                seq,
                rw more,
                take_packet-Inv u b no_block h f i,
                take_packet-Counts b no_block h f good counts,
              )
        ])

  -- In a usable SOURCE_FAST build, while the hashpipe calls succeed: process_packet on a frame of bytes
  -- with a source ID in range, from a state that keeps the ring and in which the two counts of each held
  -- block add up to the number of mcnts of a block, returns, and its new state is such a state again.
  -- In the model, whose blocks do not touch: see Confined for the frames of which this is so in memory.
  pub process_packet-Counts :
      (s : PktState hp) {seq : ℕ} (now : ℕ × ℕ) (f : Frame)
      → IsFrame f
      → Inv (fast_of n) (prepared (fast_of n) s) seq
      → Counts (fast_of n) (prepared (fast_of n) s) seq
      → (get_header (fast_of n) f).sid < 38
      → CountsAfter (process_packet (fast_of n) now f s)
  unfolding process_packet
  process_packet-Counts s {seq} now f bytes i counts good =
      rw (block_for_mcnt_lem u h.mcnt) (elim (dec_lt h.mcnt (seq * nm c)) [
        | yes before ↦ elim (dec_lt (seq * nm c) (h.mcnt + late_pkt_mcnt_threshold c)) [
          | yes near ↦ (
            late c h s0,
            no_block,
            seq,
            dispatch-late u now h f b i before near,
            late-Inv u h i,
            late-Counts h counts,
          )
          | no far ↦
              rw (dispatch-out_of_seq u now h f b i m (inr (omega arith)))
                (out_of_seq-Counts h i counts m)
        ]
        | no after ↦ elim (dec_lt h.mcnt (seq * nm c + 2 * nm c)) [
          | yes near ↦ expected-Counts now h f b i counts m good (omega arith) near
          | no far ↦
              rw (dispatch-out_of_seq u now h f b i m (inl (omega arith)))
                (out_of_seq-Counts h i counts m)
        ]
      ])
    where
      c : Config
      c = fast_of n

      h : PacketHeader
      h = get_header c f

      b : ℕ
      b = h.mcnt / nm c % c.n_input_blocks

      s0 : PktState hp
      s0 = prepared c s

      m : h.mcnt < 2 ^ 56
      m = mcnt-get_header c f bytes
