-- ===== src/Window/Order.antt =====
-- The blocks of the buffer are handed over in turn, across resets.
use serendip6_reobs.Base.{
  true, false, Bool-cases, inl, inr, ap, sym, ◌∙◌, ◌&&◌, ℕ, ◌+◌, ◌/◌, ◌%◌, ◌<◌, ◌≡◌, List, [], ◌∷◌,
  arith, refl, ltb, if◌then◌else◌, some, none,
}
use serendip6_reobs.Base.Arith.{succ-mod, mod_below}
use serendip6_reobs.Window.{
  Shape, Window, advanced_seq, advanced_seq-mod, move, hands_over, all_handed_over, expects,
  completes, misses,
}

-- The positions in the buffer of the blocks of a list go on from `i`, one place further each time.
abbrev pub InTurn : (n i : ℕ) → List ℕ → Type 0
InTurn n i [] = Unit
InTurn n i (seq ∷ seqs) = (seq % n ≡ i % n) × InTurn n (i + 1) seqs

module _ (sh : Shape) where
  open sh use {blocks as n}

  -- A packet that hands a block over moves the window one block further.
  move_next :
      (mcnt : ℕ) (w : Window)
      → (expects sh w mcnt && completes sh w mcnt) ≡ true
      → (move sh mcnt w).seq ≡ w.seq + 1
  unfolding move
  move_next mcnt w h = ground arith

  -- Where a stray packet leaves the window: at the same place of the buffer.
  stray_place :
      (mcnt : ℕ) (w : Window)
      → 0 < n
      → (if ltb sh.tolerated (w.strays + 1)
            then advanced_seq n (w.seq % n) (mcnt / sh.mcnts)
            else w.seq)
          % n
        ≡ w.seq % n
  stray_place mcnt w pos = elim (Bool-cases (ltb sh.tolerated (w.strays + 1))) [
    | inl many ↦
        rw many (advanced_seq-mod n (w.seq % n) (mcnt / sh.mcnts) (mod_below w.seq n pos)).0
    | inr few ↦ rw few refl
  ]

  -- Any other packet keeps its place in the buffer.
  move_place :
      (mcnt : ℕ) (w : Window)
      → 0 < n
      → (expects sh w mcnt && completes sh w mcnt) ≡ false
      → (move sh mcnt w).seq % n ≡ w.seq % n
  unfolding move
  move_place mcnt w pos h = elim (Bool-cases (expects sh w mcnt)) [
    | inl expected ↦ rw (expected, rw expected at h) refl
    | inr other ↦ elim (Bool-cases (misses sh w mcnt)) [
      | inl late ↦ rw (other, late) refl
      | inr stray ↦ rw (other, stray) (stray_place mcnt w pos)
    ]
  ]

  -- A packet that hands a block over hands over the first of the window, which moves one further; any other
  -- keeps the place of the window.
  pub hands_over-some :
      (mcnt : ℕ) (w : Window) {seq : ℕ}
      → hands_over sh mcnt w ≡ some seq
      → (seq ≡ w.seq) × ((move sh mcnt w).seq ≡ w.seq + 1)
  unfolding hands_over
  hands_over-some mcnt w e = elim (Bool-cases (expects sh w mcnt && completes sh w mcnt)) [
    | inl handed ↦ (ground (arith, handed, e), move_next mcnt w handed)
    | inr kept ↦ (let d = rw kept at e in cc)
  ]

  pub hands_over-none :
      (mcnt : ℕ) (w : Window)
      → 0 < n
      → hands_over sh mcnt w ≡ none
      → (move sh mcnt w).seq % n ≡ w.seq % n
  unfolding hands_over
  hands_over-none mcnt w pos e = elim (Bool-cases (expects sh w mcnt && completes sh w mcnt)) [
    | inl handed ↦ (let d = rw handed at e in cc)
    | inr kept ↦ move_place mcnt w pos kept
  ]

  -- Whatever the packets are, the blocks that are handed over are those of the buffer in turn.
  pub all_handed_over-InTurn :
      (ms : List ℕ) (w : Window) (i : ℕ)
      → 0 < n
      → w.seq % n ≡ i % n
      → InTurn n i (all_handed_over sh ms w)
  unfolding all_handed_over hands_over
  all_handed_over-InTurn [] w i pos at = tt
  all_handed_over-InTurn (mcnt ∷ ms) w i pos at =
      elim (Bool-cases (expects sh w mcnt && completes sh w mcnt)) [
        | inl handed ↦
            let next : (move sh mcnt w).seq % n ≡ (i + 1) % n =
              ap (λ q. q % n) (move_next mcnt w handed)
              ∙ sym (succ-mod w.seq n)
              ∙ ap (λ q. (q + 1) % n) at
              ∙ succ-mod i n in
            rw (handed, all_handed_over)
              (at, all_handed_over-InTurn ms (move sh mcnt w) (i + 1) pos next)
        | inr kept ↦
            rw (kept, all_handed_over)
              (all_handed_over-InTurn ms (move sh mcnt w) i pos (move_place mcnt w pos kept ∙ at))
      ]
