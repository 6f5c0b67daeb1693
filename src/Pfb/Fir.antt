-- ===== src/Pfb/Fir.antt =====
-- That the kernel of src/pfb_fir.cu computes the sums of a filter.
use serendip6_reobs.Base.{
  ℕ, zero, suc, ◌+◌, ◌-◌, ◌*◌, ◌/◌, ◌%◌, ◌<◌, ◌≡◌, ◌≢◌, ◌∙◌, refl, ap, leb, Bool-cases, inl, inr,
  update, update_self, update_ne, for_each, for_each-cong, arith, lt→leb,
}
use native.Mathlib.Decide.{dec_lt}
use serendip6_reobs.Pfb.{
  Floats, Args, Ids, taps, pos_of, offset_of, get_sample_10bit, prime, fir_sum, fir_rows, pfb_fir,
}

module _ {fl : Floats} (a : Args fl) where
  -- The filter, without a ring of samples: the sum of row `i`, whose first sample is `start` + i * step.
  abbrev pub direct : (rweights : ℕ → fl.Float) (start i : ℕ) → fl.Float
  direct rweights start i =
      for_each taps
        (λ j sum.
          fl.plus sum (fl.times (rweights j) (get_sample_10bit a (start + (i + j) * a.step))))
        fl.nought

  -- The ring holds the samples of the taps but the last, for row `i`.
  abbrev Holds : (samples : ℕ → fl.Float) (start i : ℕ) → Type 0
  Holds samples start i =
      (j : ℕ)
      → j < taps - 1
      → samples ((i + j) % taps) ≡ get_sample_10bit a (start + (i + j) * a.step)

  -- The array with the new sample of row `i`.
  abbrev filled : (samples : ℕ → fl.Float) (start i : ℕ) → ℕ → fl.Float
  filled samples start i =
      update samples ((i + taps - 1) % taps)
        (get_sample_10bit a (start + (taps - 1) * a.step + i * a.step))

  filled_lem :
      (samples : ℕ → fl.Float) (start i : ℕ)
      → Holds samples start i
      → (j : ℕ) → j < taps
      → filled samples start i ((i + j) % taps) ≡ get_sample_10bit a (start + (i + j) * a.step)
  filled_lem samples start i holds j lt = elim (dec_lt j (taps - 1)) [
    | yes old ↦ update_ne samples _ ((i + j) % taps) _ (λ e. omega (arith, e)) ∙ holds j old
    | no new ↦
        let third : j ≡ taps - 1 = omega arith in
        ap (λ k. filled samples start i (k % taps)) (omega (arith, third))
        ∙ update_self samples ((i + taps - 1) % taps) _
        ∙ ap (get_sample_10bit a) (omega (arith, ap (λ k. (i + k) * a.step) third))
  ]

  sum_lem :
      (w samples : ℕ → fl.Float) (start i : ℕ)
      → Holds samples start i
      → fir_sum a w (filled samples start i) i ≡ direct w start i
  sum_lem w samples start i holds =
      for_each-cong taps _ _ fl.nought (λ j lt sum.
        ap (λ x. fl.plus sum (fl.times (w j) x)) (filled_lem samples start i holds j lt))

  next-Holds :
      (samples : ℕ → fl.Float) (start i : ℕ)
      → Holds samples start i
      → Holds (filled samples start i) start (i + 1)
  next-Holds samples start i holds j lt =
      ap (λ k. filled samples start i (k % taps)) (omega arith)
      ∙ filled_lem samples start i holds (j + 1) (omega arith)
      ∙ ap (λ k. get_sample_10bit a (start + k * a.step)) (omega arith)

  -- Which place of the output a row writes.
  abbrev pub place : (to i : ℕ) → ℕ
  place to i = to + i * a.step

  fir_rows-elsewhere :
      (k i : ℕ) (w samples : ℕ → fl.Float) (in_offset n to : ℕ) (out : ℕ → fl.Float) (q : ℕ)
      → ((d : ℕ) → d < k → (i + d) * a.step < n → q ≢ place to (i + d))
      → fir_rows a k i w samples in_offset n to out q ≡ out q
  unfolding fir_rows
  fir_rows-elsewhere zero i w samples in_offset n to out q other = refl
  fir_rows-elsewhere (suc k) i w samples in_offset n to out q other =
      elim (Bool-cases (leb n (i * a.step))) [
        | inl ended ↦ rw ended refl
        | inr goes_on ↦
            let inside : i * a.step < n = ground (arith, goes_on) in
            rw goes_on (
              fir_rows-elsewhere k (i + 1) w _ in_offset n to _ q (λ d lt below same.
                other (d + 1) (omega arith) (omega (arith, below)) (omega (arith, same)))
              ∙ update_ne out (place to i) q _
                  (λ same. other 0 (omega arith) (omega (arith, inside)) (omega (arith, same))))
      ]

  fir_rows-row :
      (k i d : ℕ) (w samples : ℕ → fl.Float) (start n to : ℕ) (out : ℕ → fl.Float)
      → 0 < a.step
      → Holds samples start i
      → d < k
      → (i + d) * a.step < n
      → fir_rows a k i w samples (start + (taps - 1) * a.step) n to out (place to (i + d))
        ≡ direct w start (i + d)
  unfolding fir_rows
  fir_rows-row zero i d w samples start n to out pos holds lt below = absurd (omega arith)
  fir_rows-row (suc k) i zero w samples start n to out pos holds lt below =
      rw (lt→leb n (i * a.step) (omega (arith, below))) (
        ap (fir_rows a k (i + 1) w (filled samples start i) _ n to _) (omega arith)
        ∙ fir_rows-elsewhere k (i + 1) w (filled samples start i) _ n to _ (place to i)
            (λ e lt1 below1 same. omega (arith, pos, same))
        ∙ update_self out (place to i) (fir_sum a w (filled samples start i) i)
        ∙ sum_lem w samples start i holds
        ∙ ap (direct w start) (omega arith))
  fir_rows-row (suc k) i (suc d) w samples start n to out pos holds lt below =
      rw (lt→leb n (i * a.step) (omega (arith, below))) (
        ap (fir_rows a k (i + 1) w (filled samples start i) _ n to _) (omega arith)
        ∙ fir_rows-row k (i + 1) d w (filled samples start i) start n to _ pos
            (next-Holds samples start i holds) (omega arith) (omega (arith, below))
        ∙ ap (direct w start) (omega arith))

  prime-Holds :
      (samples : ℕ → fl.Float) (start : ℕ)
      → Holds (prime a samples start).0 start 0
        × ((prime a samples start).1 ≡ start + (taps - 1) * a.step)
  prime-Holds samples start = (tap, omega arith)
    where
      tap : Holds (prime a samples start).0 start 0
      tap zero lt = ap (get_sample_10bit a) (omega arith)
      tap (suc zero) lt = ap (get_sample_10bit a) (omega arith)
      tap (suc (suc zero)) lt = ap (get_sample_10bit a) (omega arith)
      tap (suc (suc (suc j))) lt = absurd (omega arith)

  -- One thread of the kernel computes, in each of its rows that lies inside the output, the sum of the
  -- filter's taps over the samples of its position, and writes nothing else: for a step that is not 0,
  -- row `i` of the stepy / step rows is written if its index is below what is left of `n`, and then has
  -- the direct sum of the four products; every other place of the output is left alone. No law of the
  -- floats is used, so the sums are the same to the bit.
  pub pfb_fir_lem :
      (t : Ids) (samples out : ℕ → fl.Float)
      → 0 < a.step
      → let offset = offset_of a t in
        let w : ℕ → fl.Float = λ i. a.weights (i * a.step + pos_of t) in
        ((i : ℕ)
          → i < a.stepy / a.step
          → i * a.step < a.n - offset
          → pfb_fir a t samples out (place (offset + a.out_offset) i)
            ≡ direct w (a.in_offset + offset) i)
        × ((q : ℕ)
            → ((i : ℕ)
                → i < a.stepy / a.step
                → i * a.step < a.n - offset
                → q ≢ place (offset + a.out_offset) i)
            → pfb_fir a t samples out q ≡ out q)
  unfolding pfb_fir
  pfb_fir_lem t samples out pos =
      let (holds, moved) = prime-Holds samples (a.in_offset + offset_of a t) in
      (
        λ i lt below. rw moved (
            ap (fir_rows a rows 0 _ _ _ left to out) {y = place to (0 + i)} (omega arith)
            ∙ fir_rows-row rows 0 i _ _ (a.in_offset + offset_of a t) left to out pos holds lt
                (omega (arith, below))
            ∙ ap (direct (λ j. a.weights (j * a.step + pos_of t)) (a.in_offset + offset_of a t))
                (omega arith)),
        λ q other.
            fir_rows-elsewhere rows 0 _ _ _ left to out q
              (λ d lt below same. other d lt (omega (arith, below)) (omega (arith, same))),
      )
    where
      rows : ℕ
      rows = a.stepy / a.step

      left : ℕ
      left = a.n - offset_of a t

      to : ℕ
      to = offset_of a t + a.out_offset
