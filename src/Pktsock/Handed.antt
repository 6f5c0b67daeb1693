-- ===== src/Pktsock/Handed.antt =====
-- What a packet leaves of the blocks of the buffer, by what the window hands over at it.
use serendip6_reobs.Base.{
  ℕ, ◌+◌, ◌-◌, ◌*◌, ◌/◌, ◌%◌, ◌≤◌, ◌<◌, ◌≡◌, ◌≢◌, ◌⊎◌, inl, inr, ok, arith, none, some, leb, true,
  ok-injective, ◌∙◌, ap,
}
use serendip6_reobs.Base.Arith.{div-eq, succ-mod-ne}
use serendip6_reobs.Window.{Window, hands_over}
use serendip6_reobs.Config.{Config}
use serendip6_reobs.Databuf.{Hashpipe, InputBlock}
use serendip6_reobs.Databuf.Input.{s6_input_databuf_set_filled, s6_input_databuf_busywait_free}
use serendip6_reobs.Packets.{PacketHeader}
use serendip6_reobs.Pipeline.Ring.{ring-ne}
use serendip6_reobs.Pktsock.{Frame, PktState, nm}
use serendip6_reobs.Pktsock.Header.{get_header}
use serendip6_reobs.Pktsock.Process.{process_packet}
use serendip6_reobs.Pktsock.Ring.{IsUsable, CallsSucceed, block_for_mcnt_lem}
use serendip6_reobs.Pktsock.Finish.{finished}
use serendip6_reobs.Pktsock.Invariant.{dispatch-expected}
use serendip6_reobs.Pktsock.Trace.{IsFrame, mcnt-get_header, prepared, Follows, shape}
use serendip6_reobs.Pktsock.Owned.{process_packet-SameElsewhere, take_packet-SameElsewhere}

module _ {c : Config} (u : IsUsable c) {hp : Hashpipe} (k : CallsSucceed hp) where
  open u use {mcnts, blocks, small}

  -- A packet that hands nothing over is before the second half of the next block, or not expected.
  none_handed :
      (m : ℕ) (w : Window)
      → hands_over (shape c) m w ≡ none
      → (m < w.seq * nm c + 3 * (nm c / 2)) ⊎ (w.seq * nm c + 2 * nm c ≤ m)
  unfolding hands_over
  none_handed m w e = ground arith

  -- One that hands a block over is for the second half of the next block, and the block is the current one.
  some_handed :
      (m seq : ℕ) (w : Window)
      → hands_over (shape c) m w ≡ some seq
      → (seq ≡ w.seq)
        × (leb (3 * (nm c / 2)) (m - w.seq * nm c) ≡ true)
        × (w.seq * nm c + nm c ≤ m)
        × (m < w.seq * nm c + 2 * nm c)
  unfolding hands_over
  some_handed m seq w e = ground arith

  -- All blocks but the two that the thread holds are as before, if none is handed over.
  pub kept-none_handed :
      (s : PktState hp) {t : PktState hp} {r : ℕ} {w : Window} (now : ℕ × ℕ) (f : Frame) (j : ℕ)
      → IsFrame f
      → Follows c (prepared c s) w
      → process_packet c now f s ≡ ok (t, r)
      → hands_over (shape c) (get_header c f).mcnt w ≡ none
      → j ≢ w.seq % c.n_input_blocks
      → j ≢ (w.seq + 1) % c.n_input_blocks
      → t.db.block j ≡ s.db.block j
  kept-none_handed s {w} now f j b fo e kept e0 e1 =
      process_packet-SameElsewhere u k s now f b fo.ring e j e0 e1
        (inr (none_handed (get_header c f).mcnt w kept))

  -- And all but these and the one that is acquired, if one is.
  pub kept-handed :
      (s : PktState hp) {t : PktState hp} {r : ℕ} {w : Window} (now : ℕ × ℕ) (f : Frame) (j : ℕ)
      → IsFrame f
      → Follows c (prepared c s) w
      → process_packet c now f s ≡ ok (t, r)
      → j ≢ w.seq % c.n_input_blocks
      → j ≢ (w.seq + 1) % c.n_input_blocks
      → j ≢ (w.seq + 2) % c.n_input_blocks
      → t.db.block j ≡ s.db.block j
  kept-handed s now f j b fo e e0 e1 e2 =
      process_packet-SameElsewhere u k s now f b fo.ring e j e0 e1 (inl e2)

  finished-bytes :
      (s : PktState hp) (seq : ℕ) (now : ℕ × ℕ) (h : PacketHeader)
      → 3 ≤ c.n_input_blocks
      → ((finished u seq now h s).db.block (seq % c.n_input_blocks)).bytes
        ≡ (s.db.block (seq % c.n_input_blocks)).bytes
  unfolding s6_input_databuf_busywait_free s6_input_databuf_set_filled
  finished-bytes s seq now h three = ground (
    arith,
    ring-ne seq 0 2 c.n_input_blocks (omega arith) (omega arith),
    ap (λ i. i % c.n_input_blocks) {x = seq + 0} {y = seq},
  )

  -- With three blocks or more: a packet that causes a block to be handed over changes none of the data of
  -- that block.
  pub bytes-handed :
      (s : PktState hp) {t : PktState hp} {r seq : ℕ} {w : Window} (now : ℕ × ℕ) (f : Frame)
      → 3 ≤ c.n_input_blocks
      → IsFrame f
      → Follows c (prepared c s) w
      → process_packet c now f s ≡ ok (t, r)
      → hands_over (shape c) (get_header c f).mcnt w ≡ some seq
      → (t.db.block (seq % c.n_input_blocks)).bytes ≡ (s.db.block (seq % c.n_input_blocks)).bytes
  unfolding process_packet
  bytes-handed s {t} {r} {seq} {w} now f three b fo e handed =
      let h = get_header c f in
      let (this, done, lo, hi) = some_handed h.mcnt seq w handed in
      let p = h.mcnt / nm c % c.n_input_blocks in
      let expected =
        dispatch-expected u now h f p fo.ring k (mcnt-get_header c f b) (omega (arith, lo)) hi in
      let taken = ok-injective (rw (block_for_mcnt_lem u h.mcnt, expected, done) at e) in
      rw (this, ← ap (λ (x : PktState hp × ℕ). x.0) taken)
        (ap (λ (x : InputBlock). x.bytes)
            (take_packet-SameElsewhere u k (finished u w.seq now h (prepared c s)) p (w.seq * nm c)
              h f (w.seq % c.n_input_blocks)
              (λ same. succ-mod-ne w.seq c.n_input_blocks (omega arith) (
                same
                ∙ ap (λ q. q % c.n_input_blocks)
                    (div-eq h.mcnt (w.seq + 1) (nm c) (omega (arith, lo)) (omega (arith, hi))))))
          ∙ finished-bytes (prepared c s) w.seq now h three)
