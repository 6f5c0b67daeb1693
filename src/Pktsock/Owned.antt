-- ===== src/Pktsock/Owned.antt =====
-- Which blocks of the buffer a packet can change: those that the thread holds.
use serendip6_reobs.Base.{
  ℕ, ◌+◌, ◌*◌, ◌/◌, ◌%◌, ◌^◌, ◌≤◌, ◌<◌, ◌≡◌, ◌≢◌, ◌⊎◌, inl, inr, Result, ok, arith, sub64, ◌>>=◌,
  >>=-eq-ok, ok-injective, ◌∙◌, ap, sym, ltb, Bool-cases,
}
use serendip6_reobs.Base.Arith.{div-eq, succ-mod}
use native.Mathlib.Decide.{dec_lt}
use serendip6_reobs.Config.{Config}
use serendip6_reobs.Databuf.{Hashpipe}
use serendip6_reobs.Databuf.Input.{s6_input_databuf_set_filled, s6_input_databuf_busywait_free}
use serendip6_reobs.Packets.{PacketHeader, no_block}
use serendip6_reobs.Pktsock.{Frame, PktState, nm, max_out_of_seq, late_pkt_mcnt_threshold}
use serendip6_reobs.Pktsock.Header.{get_header}
use serendip6_reobs.Pktsock.Block.{calc_block_indexes}
use serendip6_reobs.Pktsock.Process.{take_packet, late, out_of_seq, dispatch, process_packet, place}
use serendip6_reobs.Pktsock.Ring.{IsUsable, Inv, CallsSucceed, block_for_mcnt_lem}
use serendip6_reobs.Pktsock.Finish.{finished}
use serendip6_reobs.Pktsock.Reset.{restarted}
use serendip6_reobs.Pktsock.Invariant.{
  dispatch-expected, dispatch-late, dispatch-out_of_seq, counted, counted-Inv, reset_lem, reset_seq,
  reset_mcnt,
}
use serendip6_reobs.Pktsock.Trace.{IsFrame, mcnt-get_header, prepared}

module _ {c : Config} (u : IsUsable c) {hp : Hashpipe} (k : CallsSucceed hp) where
  open u use {mcnts, blocks, small}

  -- `t` has the blocks of `s`, but for the one at `seq` and the next, and, if the packet finishes block
  -- `seq`, the one after them.
  abbrev pub SameElsewhere : (mcnt seq : ℕ) → PktState hp → PktState hp → Type 0
  SameElsewhere mcnt seq s t =
      (j : ℕ)
      → j ≢ seq % c.n_input_blocks
      → j ≢ (seq + 1) % c.n_input_blocks
      → (j ≢ (seq + 2) % c.n_input_blocks)
        ⊎ ((mcnt < seq * nm c + 3 * (nm c / 2)) ⊎ (seq * nm c + 2 * nm c ≤ mcnt))
      → t.db.block j ≡ s.db.block j

  pub take_packet-SameElsewhere :
      (s : PktState hp) (b r : ℕ) (h : PacketHeader) (f : Frame) (j : ℕ)
      → j ≢ b
      → (take_packet c b r h f s).0.db.block j ≡ s.db.block j
  unfolding take_packet calc_block_indexes
  take_packet-SameElsewhere s b r h f j e = ground arith

  finished-SameElsewhere :
      (s : PktState hp) (seq : ℕ) (now : ℕ × ℕ) (h : PacketHeader) (j : ℕ)
      → j ≢ seq % c.n_input_blocks
      → j ≢ (seq + 2) % c.n_input_blocks
      → (finished u seq now h s).db.block j ≡ s.db.block j
  unfolding s6_input_databuf_busywait_free s6_input_databuf_set_filled
  finished-SameElsewhere s seq now h j e e2 = ground arith

  -- The block of a packet that is expected is one of the two that the thread holds.
  pub expected_block :
      (m seq : ℕ)
      → seq * nm c ≤ m
      → m < seq * nm c + 2 * nm c
      → (m / nm c % c.n_input_blocks ≡ seq % c.n_input_blocks)
        ⊎ (m / nm c % c.n_input_blocks ≡ (seq + 1) % c.n_input_blocks)
  expected_block m seq lo hi = elim (dec_lt m (seq * nm c + nm c)) [
    | yes here ↦ inl (ap (λ q. q % c.n_input_blocks) (div-eq m seq (nm c) lo here))
    | no there ↦
        inr (ap (λ q. q % c.n_input_blocks) (div-eq m (seq + 1) (nm c) (omega arith) (omega arith)))
  ]

  expected-SameElsewhere :
      {s t : PktState hp} {seq r : ℕ} (now : ℕ × ℕ) (h : PacketHeader) (f : Frame)
      → Inv c s seq
      → h.mcnt < 2 ^ 56
      → seq * nm c ≤ h.mcnt
      → h.mcnt < seq * nm c + 2 * nm c
      → dispatch c now (sub64 h.mcnt s.binfo.mcnt_start) (h.mcnt / nm c % c.n_input_blocks) h f s
        ≡ ok (t, r)
      → SameElsewhere h.mcnt seq s t
  expected-SameElsewhere {s} {t} {seq} now h f i small_mcnt lo hi e j e0 e1 e2 = ground (
    arith,
    dispatch-expected u now h f (h.mcnt / nm c % c.n_input_blocks) i k small_mcnt lo hi,
    expected_block h.mcnt seq lo hi,
    take_packet-SameElsewhere s (h.mcnt / nm c % c.n_input_blocks) no_block h f j,
    take_packet-SameElsewhere (finished u seq now h s) (h.mcnt / nm c % c.n_input_blocks)
        (seq * nm c) h f j,
    finished-SameElsewhere s seq now h j e0,
  )

  restarted-SameElsewhere :
      (s : PktState hp) (seq q m : ℕ) (h : PacketHeader) (j : ℕ)
      → q % c.n_input_blocks ≡ seq % c.n_input_blocks
      → j ≢ seq % c.n_input_blocks
      → j ≢ (seq + 1) % c.n_input_blocks
      → (restarted u q m h s).db.block j ≡ s.db.block j
  restarted-SameElsewhere s seq q m h j e e0 e1 =
      ground (arith, succ-mod q c.n_input_blocks, succ-mod seq c.n_input_blocks)

  pub counted-block : (s : PktState hp) (h : PacketHeader) → (counted u h s).db ≡ s.db
  counted-block s h = ground arith

  pub late-db : (s : PktState hp) (h : PacketHeader) → (late c h s).db ≡ s.db
  unfolding late
  late-db s h = ground arith

  out_of_seq-SameElsewhere :
      {s t : PktState hp} {seq : ℕ} (h : PacketHeader)
      → Inv c s seq
      → h.mcnt < 2 ^ 56
      → out_of_seq c (h.mcnt / nm c % c.n_input_blocks) h s ≡ ok t
      → SameElsewhere h.mcnt seq s t
  unfolding out_of_seq
  out_of_seq-SameElsewhere {s} {t} {seq} h i small_mcnt e j e0 e1 e2 =
      elim (Bool-cases (ltb (max_out_of_seq c) (counted u h s).binfo.out_of_seq_cnt)) [
        | inl more ↦
            let (done, _, place) = reset_lem u h (counted-Inv u h i) small_mcnt in
            let q = reset_seq u h (counted u h s) in
            let m = reset_mcnt u h (counted u h s) in
            rw (← ok-injective (rw (more, done) at e)) (
              restarted-SameElsewhere (counted u h s) seq q m h j
                (place ∙ (counted-Inv u h i).current) e0 e1
              ∙ ap (λ db. db.block j) (counted-block s h))
        | inr few ↦ rw (← ok-injective (rw few at e)) (ap (λ db. db.block j) (counted-block s h))
      ]

  -- The blocks of the model do not touch; Confined adds, for frames that fit in their place, that nothing
  -- behind the data of a block is written either.
  pub process_packet-SameElsewhere :
      (s : PktState hp) {t : PktState hp} {seq r : ℕ} (now : ℕ × ℕ) (f : Frame)
      → IsFrame f
      → Inv c (prepared c s) seq
      → process_packet c now f s ≡ ok (t, r)
      → SameElsewhere (get_header c f).mcnt seq s t
  unfolding process_packet
  process_packet-SameElsewhere s {t} {seq} {r} now f b i e = elim (dec_lt h.mcnt (seq * nm c)) [
    | yes before ↦ elim (dec_lt (seq * nm c) (h.mcnt + late_pkt_mcnt_threshold c)) [
      | yes near ↦ late_case (dispatch-late u now h f _ i before near)
      | no far ↦ far_case (dispatch-out_of_seq u now h f _ i m (inr (omega arith)))
    ]
    | no after ↦ elim (dec_lt h.mcnt (seq * nm c + 2 * nm c)) [
      | yes near ↦ expected-SameElsewhere {s = prepared c s} now h f i m (omega arith) near called
      | no far ↦ far_case (dispatch-out_of_seq u now h f _ i m (inl (omega arith)))
    ]
  ]
    where
      h : PacketHeader
      h = get_header c f

      m : h.mcnt < 2 ^ 56
      m = mcnt-get_header c f b

      b_i : ℕ
      b_i = h.mcnt / nm c % c.n_input_blocks

      call : Result (PktState hp × ℕ)
      call = dispatch c now (sub64 h.mcnt (prepared c s).binfo.mcnt_start) b_i h f (prepared c s)

      called : call ≡ ok (t, r)
      called = rw (block_for_mcnt_lem u h.mcnt) at e

      late_case : call ≡ ok (late c h (prepared c s), no_block) → SameElsewhere h.mcnt seq s t
      late_case d j e0 e1 e2 =
          rw (← ap (λ p. p.0) (ok-injective (sym d ∙ called)))
            (ap (λ db. db.block j) (late-db (prepared c s) h))

      far_case :
          call ≡ (out_of_seq c b_i h (prepared c s) >>= λ s1. ok (s1, no_block))
          → SameElsewhere h.mcnt seq s t
      far_case d j e0 e1 e2 =
          let (t', got, e') = >>=-eq-ok (out_of_seq c b_i h (prepared c s)) _ (sym d ∙ called) in
          rw (← ap (λ p. p.0) (ok-injective e'))
            (out_of_seq-SameElsewhere {s = prepared c s} h i m got j e0 e1 e2)
