-- ===== src/Base/Lists.antt =====
-- The length of a list as a native number, and counted loops.
use Prim.Native.Nat.{ℕ, zero, suc, ◌+◌, ◌<◌}
use mathlib.Core.Path.{◌≡◌, refl, ap, ◌∙◌}
use mathlib.Core.List.{List, [], ◌∷◌, ◌++◌}
use native.Mathlib.Omega.{arith}

module _ {ℓ} {A : Type ℓ} where
  abbrev pub length : List A → ℕ
  length [] = 0
  length (x ∷ xs) = suc (length xs)

  pub length-append : (xs ys : List A) → length (xs ++ ys) ≡ length xs + length ys
  length-append [] ys = omega arith
  length-append (x ∷ xs) ys = omega (arith, length-append xs ys)

  pub length-snoc : (xs : List A) (a : A) → length (xs ++ (a ∷ [])) ≡ suc (length xs)
  length-snoc xs a = length-append xs (a ∷ []) ∙ omega arith

  -- for(i=0; i<n; i++) a = body(i, a)
  abbrev pub for_each : (n : ℕ) (body : ℕ → A → A) → A → A
  for_each zero body a = a
  for_each (suc n) body a = body n (for_each n body a)

  -- Induction along a loop: what holds before it, and is carried on by every pass.
  pub for_each-ind {κ} :
      (n : ℕ) (body : ℕ → A → A) (P : ℕ → A → Type κ) (a : A)
      → P 0 a
      → ((i : ℕ) → i < n → (b : A) → P i b → P (suc i) (body i b))
      → P n (for_each n body a)
  for_each-ind zero body P a start next = start
  for_each-ind (suc n) body P a start next =
      next n (omega arith) (for_each n body a)
        (for_each-ind n body P a start (λ i lt. next i (omega arith)))

  -- What every pass keeps is kept by the loop.
  pub for_each-kept {κ} :
      (n : ℕ) (body : ℕ → A → A) (P : A → Type κ) (a : A)
      → ((i : ℕ) → i < n → (b : A) → P b → P (body i b))
      → P a
      → P (for_each n body a)
  for_each-kept n body P a kept h = for_each-ind n body (λ _ b. P b) a h kept

  -- Two loops with the same passes.
  pub for_each-cong :
      (n : ℕ) (body other : ℕ → A → A) (a : A)
      → ((i : ℕ) → i < n → (b : A) → body i b ≡ other i b)
      → for_each n body a ≡ for_each n other a
  for_each-cong zero body other a same = refl
  for_each-cong (suc n) body other a same =
      same n (omega arith) (for_each n body a)
      ∙ ap (other n) (for_each-cong n body other a (λ i lt. same i (omega arith)))
