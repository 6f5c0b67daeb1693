-- ===== src/Pfb/Grid.antt =====
-- All the threads of a launch of the kernel of src/pfb_fir.cu, one after the other: groups_x by groups_y
-- groups of WGS threads.
use serendip6_reobs.Base.{
  ℕ, ◌+◌, ◌-◌, ◌*◌, ◌%◌, ◌≤◌, ◌<◌, ◌≡◌, ◌∙◌, refl, ap, for_each, for_each-kept, arith,
}
use serendip6_reobs.Base.Arith.{mod-eq, mul-le_right, mul-le_left}
use serendip6_reobs.Pfb.{Floats, Args, Ids, wgs, pos_of, offset_of, pfb_fir}
use serendip6_reobs.Pfb.Fir.{pfb_fir_lem}

module _ {fl : Floats} (a : Args fl) where
  -- `samples` are the arrays of the threads before they are written.
  abbrev thread :
      (samples : Ids → ℕ → fl.Float) (group_y group_x lid : ℕ) → (ℕ → fl.Float) → ℕ → fl.Float
  thread samples group_y group_x lid =
      let t : Ids = record { group_x = group_x; group_y = group_y; lid = lid } in
      pfb_fir a t (samples t)

  unfoldable pub launch :
      (groups_x groups_y : ℕ) (samples : Ids → ℕ → fl.Float) → (ℕ → fl.Float) → ℕ → fl.Float
  launch groups_x groups_y samples =
      for_each groups_y
        (λ group_y. for_each groups_x (λ group_x. for_each wgs (thread samples group_y group_x)))

  -- What a thread writes lies at its position in a step.
  write-mod :
      (t : Ids) (i y o : ℕ)
      → pos_of t < a.step
      → a.stepy ≡ y * a.step
      → a.out_offset ≡ o * a.step
      → (offset_of a t + a.out_offset + i * a.step) % a.step ≡ pos_of t
  write-mod t i y o inside whole start =
      ap (λ k. k % a.step) apart
      ∙ mod-eq (steps * a.step + pos_of t) steps a.step (omega arith) (omega (arith, inside))
      ∙ omega arith
    where
      steps : ℕ
      steps = t.group_y * y + o + i

      apart : offset_of a t + a.out_offset + i * a.step ≡ steps * a.step + pos_of t
      apart = rw (whole, start) (omega arith)

  -- The positions of a launch.
  pos_bound :
      (groups_x group_x lid : ℕ)
      → group_x < groups_x
      → lid < wgs
      → group_x * lid ≤ (groups_x - 1) * (wgs - 1)
  pos_bound groups_x group_x lid x l = omega (
    arith,
    mul-le_left group_x lid (wgs - 1) (omega arith),
    mul-le_right group_x (groups_x - 1) (wgs - 1) (omega arith),
  )

  -- A launch whose groups have together as many threads as a step has positions does not compute all of
  -- them: with whole steps for a group and for the offset of the output, no place is written whose
  -- position is behind the product of the last group's and the last thread's index. From two groups on
  -- these are positions of the step.
  pub launch-unwritten :
      (groups_x groups_y y o : ℕ) (samples : Ids → ℕ → fl.Float) (out : ℕ → fl.Float) (q : ℕ)
      → 0 < groups_x
      → a.step ≡ groups_x * wgs
      → a.stepy ≡ y * a.step
      → a.out_offset ≡ o * a.step
      → (groups_x - 1) * (wgs - 1) < q % a.step
      → launch groups_x groups_y samples out q ≡ out q
  unfolding launch
  launch-unwritten groups_x groups_y y o samples out q some_groups full whole start behind =
      for_each-kept groups_y _ Kept out
        (λ group_y y_lt out1 kept1.
          for_each-kept groups_x _ Kept out1
            (λ group_x x_lt out2 kept2.
              for_each-kept wgs (thread samples group_y group_x) Kept out2
                (λ lid l_lt out3 kept3.
                  let t : Ids = record { group_x = group_x; group_y = group_y; lid = lid } in
                  let low = pos_bound groups_x group_x lid x_lt l_lt in
                  (pfb_fir_lem a t (samples t) out3 (omega (arith, full, some_groups))).1 q
                    (λ i lt below same. omega (
                      arith,
                      low,
                      behind,
                      ap (λ k. k % a.step) same,
                      write-mod t i y o (omega (arith, low, full, some_groups)) whole start,
                    ))
                  ∙ kept3)
                kept2)
            kept1)
        refl
    where
      Kept : (ℕ → fl.Float) → Type 0
      Kept out1 = out1 q ≡ out q
