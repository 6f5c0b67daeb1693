-- ===== src/Window/Cases.antt =====
-- What the window does with a packet, by where the packet lies.
use serendip6_reobs.Base.{
  ℕ, ◌+◌, ◌*◌, ◌/◌, ◌%◌, ◌≤◌, ◌<◌, ◌≡◌, ◌⊎◌, inl, inr, true, false, none, some, arith, refl, ltb,
  le→leb, lt→ltb, lt→leb, le→ltb, if◌then◌else◌,
}
use serendip6_reobs.Window.{Shape, Window, advanced_seq, move, hands_over, completes}

module _ (sh : Shape) (mcnt : ℕ) (w : Window) where
  open sh use {mcnts as m}

  pub move-done :
      w.seq * m ≤ mcnt
      → mcnt < w.seq * m + 2 * m
      → completes sh w mcnt ≡ true
      → (move sh mcnt w ≡ record { seq = w.seq + 1; strays = 0 })
        × (hands_over sh mcnt w ≡ some w.seq)
  unfolding move hands_over
  move-done lo hi done =
      rw (le→leb (w.seq * m) mcnt lo, lt→ltb mcnt (w.seq * m + 2 * m) hi, done) (refl, refl)

  pub move-more :
      w.seq * m ≤ mcnt
      → mcnt < w.seq * m + 2 * m
      → completes sh w mcnt ≡ false
      → (move sh mcnt w ≡ record { seq = w.seq; strays = 0 }) × (hands_over sh mcnt w ≡ none)
  unfolding move hands_over
  move-more lo hi more =
      rw (le→leb (w.seq * m) mcnt lo, lt→ltb mcnt (w.seq * m + 2 * m) hi, more) (refl, refl)

  pub move-late :
      mcnt < w.seq * m
      → w.seq * m < mcnt + sh.late_threshold
      → (move sh mcnt w ≡ w) × (hands_over sh mcnt w ≡ none)
  unfolding move hands_over
  move-late lo hi =
      rw
        (
          lt→leb (w.seq * m) mcnt lo,
          lt→ltb mcnt (w.seq * m) lo,
          lt→ltb (w.seq * m) (mcnt + sh.late_threshold) hi,
        )
        (refl, refl)

  pub move-stray :
      0 < sh.late_threshold
      → (w.seq * m + 2 * m ≤ mcnt) ⊎ (mcnt + sh.late_threshold ≤ w.seq * m)
      → (move sh mcnt w ≡ record {
        seq =
            if ltb sh.tolerated (w.strays + 1)
            then advanced_seq sh.blocks (w.seq % sh.blocks) (mcnt / m)
            else w.seq;
        strays = w.strays + 1;
      })
        × (hands_over sh mcnt w ≡ none)
  unfolding move hands_over
  move-stray pos (inl far) =
      rw
        (
          le→leb (w.seq * m) mcnt (omega arith),
          le→ltb mcnt (w.seq * m + 2 * m) far,
          le→ltb mcnt (w.seq * m) (omega arith),
        )
        (refl, refl)
  move-stray pos (inr old) =
      rw
        (
          lt→leb (w.seq * m) mcnt (omega arith),
          lt→ltb mcnt (w.seq * m) (omega arith),
          le→ltb (w.seq * m) (mcnt + sh.late_threshold) old,
        )
        (refl, refl)
