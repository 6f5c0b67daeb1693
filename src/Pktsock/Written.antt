-- ===== src/Pktsock/Written.antt =====
-- What a packet does to the data of the blocks: what take_packet writes, and nothing else.
use serendip6_reobs.Base.{
  ℕ, ◌+◌, ◌-◌, ◌*◌, ◌/◌, ◌%◌, ◌≡◌, ◌⊎◌, inl, inr, refl, sym, ok, arith, sub64, ◌∙◌, ap, leb, ltb,
  true, false, Bool-cases, ok-injective,
}
use serendip6_reobs.Config.{Config}
use serendip6_reobs.Databuf.{Hashpipe}
use serendip6_reobs.Databuf.Input.{s6_input_databuf_set_filled, s6_input_databuf_busywait_free}
use serendip6_reobs.Window.{Window, expects, misses}
use serendip6_reobs.Packets.{PacketHeader, no_block}
use serendip6_reobs.Pktsock.{Frame, PktState, nm, max_out_of_seq}
use serendip6_reobs.Pktsock.Header.{get_header}
use serendip6_reobs.Pktsock.Block.{calc_block_indexes}
use serendip6_reobs.Pktsock.Process.{take_packet, out_of_seq, dispatch, process_packet}
use serendip6_reobs.Pktsock.Ring.{IsUsable, CallsSucceed, block_for_mcnt_lem}
use serendip6_reobs.Pktsock.Finish.{finished}
use serendip6_reobs.Pktsock.Invariant.{
  dispatch-expected, dispatch-late, dispatch-out_of_seq, counted,
}
use serendip6_reobs.Pktsock.Owned.{counted-block, late-db}
use serendip6_reobs.Pktsock.Trace.{
  IsFrame, mcnt-get_header, prepared, shape, Follows, counted-strays,
}

-- A packet with a source ID that is out of range writes nothing.
pub take_packet-bad :
    (c : Config) {hp : Hashpipe} (b r : ℕ) (h : PacketHeader) (f : Frame) (s : PktState hp)
    → leb c.n_source_nodes h.sid ≡ true
    → (take_packet c b r h f s).0.db ≡ s.db
unfolding take_packet calc_block_indexes
take_packet-bad c b r h f s bad = ground (arith, bad)

module _ {c : Config} (u : IsUsable c) {hp : Hashpipe} (k : CallsSucceed hp) where
  open u use {mcnts, blocks, small}

  -- A block that is finished, and the one that is acquired then, keep their data.
  bytes-finished :
      (seq : ℕ) (now : ℕ × ℕ) (h : PacketHeader) (s : PktState hp) (j : ℕ)
      → ((finished u seq now h s).db.block j).bytes ≡ (s.db.block j).bytes
  unfolding s6_input_databuf_busywait_free s6_input_databuf_set_filled
  bytes-finished seq now h s j = ground arith

  -- A packet that is expected is taken, in a state with the same data.
  pub expected-takes :
      (s : PktState hp) {t : PktState hp} {r : ℕ} {w : Window} (now : ℕ × ℕ) (f : Frame)
      → IsFrame f
      → Follows c (prepared c s) w
      → process_packet c now f s ≡ ok (t, r)
      → expects (shape c) w (get_header c f).mcnt ≡ true
      → let h = get_header c f in
        (s1 : PktState hp) × (r1 : ℕ) × ((take_packet c
            (h.mcnt / nm c % c.n_input_blocks)
            r1
            h
            f
            s1).0
          ≡ t)
        × ((j : ℕ) → (s1.db.block j).bytes ≡ (s.db.block j).bytes)
  unfolding process_packet
  expected-takes s {w = w} now f b fo e expected =
      let h = get_header c f in
      let p = h.mcnt / nm c % c.n_input_blocks in
      let takes =
        dispatch-expected u now h f p fo.ring k (mcnt-get_header c f b) (ground (arith, expected))
          (ground (arith, expected)) in
      elim (Bool-cases (leb (3 * (nm c / 2)) (h.mcnt - w.seq * nm c))) [
        | inl done ↦ (
          finished u w.seq now h (prepared c s),
          w.seq * nm c,
          ap (λ x. x.0) (ok-injective (rw (block_for_mcnt_lem u h.mcnt, takes, done) at e)),
          bytes-finished w.seq now h (prepared c s),
        )
        | inr more ↦ (
          prepared c s,
          no_block,
          ap (λ x. x.0) (ok-injective (rw (block_for_mcnt_lem u h.mcnt, takes, more) at e)),
          λ j. refl,
        )
      ]

  -- A packet that is not expected and does not move the window changes no block.
  pub ignored-block :
      (s : PktState hp) {t : PktState hp} {r : ℕ} {w : Window} (now : ℕ × ℕ) (f : Frame)
      → IsFrame f
      → Follows c (prepared c s) w
      → process_packet c now f s ≡ ok (t, r)
      → expects (shape c) w (get_header c f).mcnt ≡ false
      → (misses (shape c) w (get_header c f).mcnt ≡ true)
        ⊎ (ltb (max_out_of_seq c) (w.strays + 1) ≡ false)
      → (j : ℕ) → t.db.block j ≡ s.db.block j
  unfolding process_packet out_of_seq
  ignored-block s {t} {r} {w} now f b fo e other why j =
      elim (Bool-cases (misses (shape c) w h.mcnt)) [
        | inl near ↦
            (let d =
                dispatch-late u now h f p fo.ring (ground (arith, near)) (ground (arith, near)) in
              rw (← ap (λ x. x.0) (ok-injective (sym d ∙ called)))
                (ap (λ db. db.block j) (late-db u k (prepared c s) h)))
        | inr far ↦
            (let d =
                dispatch-out_of_seq u now h f p fo.ring (mcnt-get_header c f b)
                  (ground (arith, other, far)) in
              rw (← ap (λ x. x.0) (ok-injective (rw (few far) at (sym d ∙ called))))
                (ap (λ db. db.block j) (counted-block u k (prepared c s) h)))
      ]
    where
      h : PacketHeader
      h = get_header c f

      p : ℕ
      p = h.mcnt / nm c % c.n_input_blocks

      called :
          dispatch c now (sub64 h.mcnt (prepared c s).binfo.mcnt_start) p h f (prepared c s)
          ≡ ok (t, r)
      called = rw (block_for_mcnt_lem u h.mcnt) at e

      few :
          misses (shape c) w h.mcnt ≡ false
          → ltb (max_out_of_seq c) (counted u h (prepared c s)).binfo.out_of_seq_cnt ≡ false
      few far = ground (arith, why, far, counted-strays u k h (prepared c s), fo.strays)
