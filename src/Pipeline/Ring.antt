-- ===== src/Pipeline/Ring.antt =====
-- A buffer of `n` blocks as a queue: the blocks that are filled follow one another round the ring, from
-- number `g` on. The threads of src/s6_pktsock_thread.cpp, src/s6_gpu_thread.cpp and
-- src/s6_output_thread.cpp use both of their buffers in this way.
use serendip6_reobs.Base.{
  ℕ, suc, ◌+◌, ◌-◌, ◌%◌, ◌≤◌, ◌<◌, ◌≡◌, ◌≢◌, refl, sym, ap, ◌∙◌, Bool, true, false, List, [], ◌∷◌,
  ◌++◌, ltb, if◌then◌else◌, update, length, arith,
}
use serendip6_reobs.Base.Arith.{mod-eq, mod_below}
use mathlib.Core.Path.{subst}
use native.Mathlib.Nat.{mod-add-mod, mod-eq-sub-mod}
use native.Mathlib.Decide.{dec_lt}

-- Once round the ring at most.
mod_once : (x n : ℕ) → x < n + n → x % n ≡ (if ltb x n then x else x - n)
mod_once x n h = ground (arith, mod-eq x 0 n, mod-eq x 1 n)

-- Once round, one is where one was.
pub mod-add_self : (g n : ℕ) → (g + n) % n ≡ g % n
mod-add_self g n = mod-eq-sub-mod {n = g + n} {m = n} (omega arith) ∙ ap (λ k. k % n) (omega arith)

-- Two places less than a ring apart differ.
pub ring-ne : (g d e n : ℕ) → d < n → e < n → d ≢ e → (g + d) % n ≢ (g + e) % n
ring-ne g d e n hd he ne same = ground (
  arith,
  mod-add-mod g n d,
  mod-add-mod g n e,
  mod_below g n (omega arith),
  mod_once (g % n + d) n (omega (arith, mod_below g n (omega arith))),
  mod_once (g % n + e) n (omega (arith, mod_below g n (omega arith))),
  same,
)

-- The blocks from number `g` on, `k` of them, are filled, and the others are free.
pub record IsFilled (n g k : ℕ) (filled : ℕ → Bool) : Type 0 where
  pub fits : k ≤ n
  pub flag : (d : ℕ) → d < n → filled ((g + d) % n) ≡ ltb d k

-- One more block is filled behind the last.
pub IsFilled-push :
    {n g k : ℕ} {filled now : ℕ → Bool}
    → IsFilled n g k filled
    → k < n
    → ((j : ℕ) → now j ≡ update filled ((g + k) % n) true j)
    → IsFilled n g (suc k) now
IsFilled-push {n} {g} {k} {filled} {now} q room wrote = record {
  fits = room;
  flag = λ d lt. ground (
    arith,
    wrote ((g + d) % n),
    q.flag d lt,
    ring-ne g k d n room lt,
    ap (λ e. (g + e) % n) {x = k} {y = d},
  );
}

-- The first block is freed.
pub IsFilled-pop :
    {n g k : ℕ} {filled now : ℕ → Bool}
    → IsFilled n g (suc k) filled
    → ((j : ℕ) → now j ≡ update filled (g % n) false j)
    → IsFilled n (suc g) k now
IsFilled-pop {n} {g} {k} {filled} {now} q freed = record {
  fits = omega (arith, q.fits);
  flag = λ d lt. elim (dec_lt (suc d) n) [
    | yes inside ↦ ground (
      arith,
      freed ((suc g + d) % n),
      q.flag (suc d) inside,
      ring-ne g 0 (suc d) n (omega arith) inside,
      ap (λ e. e % n) (here g d),
      ap (λ e. e % n) (first g),
    )
    | no around ↦ ground (arith, q.fits, freed ((suc g + d) % n), back d lt around)
  ];
}
  where
    here : (g d : ℕ) → suc g + d ≡ g + suc d
    here g d = omega arith

    first : (g : ℕ) → g + 0 ≡ g
    first g = omega arith

    back : (d : ℕ) → d < n → (suc d < n → ⊥) → (suc g + d) % n ≡ g % n
    back d lt around = ap (λ e. e % n) (omega arith) ∙ mod-add_self g n

module _ {ℓ κ ρ} {A : Type ℓ} {B : Type κ} (R : A → B → Type ρ) (n : ℕ) where
  -- The cells from number `g` on stand for the entries of the list.
  abbrev pub Stands : (g : ℕ) → List A → (cells : ℕ → B) → Type ρ
  Stands g [] cells = Unit
  Stands g (a ∷ q) cells = R a (cells (g % n)) × Stands (suc g) q cells

  -- They still do when no cell of the list has changed.
  pub Stands-kept :
      (g : ℕ) (q : List A) (cells now : ℕ → B)
      → ((d : ℕ) → d < length q → now ((g + d) % n) ≡ cells ((g + d) % n))
      → Stands g q cells
      → Stands g q now
  Stands-kept g [] cells now same h = tt
  Stands-kept g (a ∷ q) cells now same (first, rest) = (
    subst (R a) (sym (at_first (same 0 (omega arith)))) first,
    Stands-kept (suc g) q cells now (λ d lt. at_next d (same (suc d) (omega (arith, lt)))) rest,
  )
    where
      at_first : now ((g + 0) % n) ≡ cells ((g + 0) % n) → now (g % n) ≡ cells (g % n)
      at_first e = ap (λ k. now (k % n)) (omega arith) ∙ e ∙ ap (λ k. cells (k % n)) (omega arith)

      at_next :
          (d : ℕ)
          → now ((g + suc d) % n) ≡ cells ((g + suc d) % n)
          → now ((suc g + d) % n) ≡ cells ((suc g + d) % n)
      at_next d e = ap (λ k. now (k % n)) (omega arith) ∙ e ∙ ap (λ k. cells (k % n)) (omega arith)

  -- One more entry behind the last.
  pub Stands-push :
      (g : ℕ) (q : List A) (a : A) (cells : ℕ → B)
      → Stands g q cells
      → R a (cells ((g + length q) % n))
      → Stands g (q ++ (a ∷ [])) cells
  Stands-push g [] a cells h last = (subst (λ k. R a (cells (k % n))) (omega arith) last, tt)
  Stands-push g (b ∷ q) a cells (first, rest) last = (
    first,
    Stands-push (suc g) q a cells rest (subst (λ k. R a (cells (k % n))) (omega arith) last),
  )

-- If the first place is filled, the list is not empty.
pub IsFilled-some {ℓ} :
    {A : Type ℓ} {n g : ℕ} {filled : ℕ → Bool} (q : List A)
    → 0 < n
    → IsFilled n g (length q) filled
    → filled (g % n) ≡ true
    → (a : A) × (rest : List A) × (q ≡ a ∷ rest)
IsFilled-some (a ∷ rest) pos flags first = (a, rest, refl)
IsFilled-some {n} {g} {filled} [] pos flags first =
    (let none_filled : filled (g % n) ≡ false =
        ap (λ x. filled (x % n)) (omega arith) ∙ flags.flag 0 pos in
      cc)

-- If the place behind the last is free, there is room.
pub IsFilled-room :
    {n g k : ℕ} {filled : ℕ → Bool}
    → IsFilled n g k filled
    → 0 < n
    → filled ((g + k) % n) ≡ false
    → k < n
IsFilled-room {n} {g} {k} {filled} flags pos free = elim (dec_lt k n) [
  | yes inside ↦ inside
  | no full ↦
      (let round : (g + k) % n ≡ (g + 0) % n =
          ap (λ x. x % n) {x = g + k} {y = g + n} (omega (arith, flags.fits, full))
          ∙ mod-add_self g n
          ∙ ap (λ x. x % n) (omega arith) in
        ground (arith, ap filled round, flags.flag 0 pos, free, full, pos))
]

-- All places are free.
pub IsFilled-none :
    {n g : ℕ} {filled : ℕ → Bool} → ((i : ℕ) → filled i ≡ false) → IsFilled n g 0 filled
IsFilled-none {n} {g} free = record {
  fits = omega arith;
  flag = λ d inside. ground (arith, free ((g + d) % n));
}
