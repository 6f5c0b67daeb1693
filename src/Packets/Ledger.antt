-- ===== src/Packets/Ledger.antt =====
-- The blocks that a packet thread holds, while it hands blocks over.
use serendip6_reobs.Base.{
  ℕ, ◌+◌, ◌%◌, ◌≤◌, ◌≡◌, ◌≢◌, refl, sym, ap, ◌∙◌, List, [], ◌∷◌, Bool, true, false, ◌&&◌, not, ◌==◌,
  ◌||◌, update, arith,
}
use serendip6_reobs.Base.Arith.{mod_small, succ-mod-ne}
use native.Mathlib.Nat.{mod-add-mod}
use serendip6_reobs.Window.Order.{InTurn}

-- No block is set filled that is not held, and none is waited for that is. `n` is the number of blocks.
abbrev pub proper : (n : ℕ) → List ℕ → (held : ℕ → Bool) → Bool
proper n [] held = true
proper n (seq ∷ seqs) held =
    let after = update held (seq % n) false in
    held (seq % n)
    && not (after ((seq + 2) % n))
    && proper n seqs (update after ((seq + 2) % n) true)

-- The blocks that are held while block number `k` is the current one.
pub record Holds (n k : ℕ) (held : ℕ → Bool) : Type 0 where
  pub this : held (k % n) ≡ true
  pub next : held ((k + 1) % n) ≡ true
  pub other : (i : ℕ) → i ≢ k % n → i ≢ (k + 1) % n → held i ≡ false

-- The block after the next, from a block at the same place.
two_on : (seq k n : ℕ) → seq % n ≡ k % n → (seq + 2) % n ≡ (k + 1 + 1) % n
two_on seq k n at =
    sym (mod-add-mod seq n 2)
    ∙ ap (λ r. (r + 2) % n) at
    ∙ mod-add-mod k n 2
    ∙ ap (λ r. r % n) (omega arith)

released :
    (n k : ℕ) (held : ℕ → Bool)
    → 2 ≤ n
    → Holds n k held
    → update held (k % n) false ((k + 1 + 1) % n) ≡ false
released n k held two h = ground (arith, succ-mod-ne (k + 1) n, h.other ((k + 1 + 1) % n))

acquired-Holds :
    (n k : ℕ) (held : ℕ → Bool)
    → 2 ≤ n
    → Holds n k held
    → Holds n (k + 1) (update (update held (k % n) false) ((k + 1 + 1) % n) true)
acquired-Holds n k held two h = record {
  this = ground (arith, succ-mod-ne k n, succ-mod-ne (k + 1) n, h.next);
  next = ground arith;
  other = λ i not_this not_next. ground (arith, h.other i);
}

-- A thread that holds two neighbouring blocks and hands blocks over in turn keeps to the rule.
pub InTurn-proper :
    (n k : ℕ) (seqs : List ℕ) (held : ℕ → Bool)
    → 2 ≤ n
    → Holds n k held
    → InTurn n k seqs
    → proper n seqs held ≡ true
InTurn-proper n k [] held two h turn = refl
InTurn-proper n k (seq ∷ seqs) held two h (at, turn) =
    rw (at, two_on seq k n at, h.this, released n k held two h)
      (InTurn-proper n (k + 1) seqs _ two (acquired-Holds n k held two h) turn)

-- After the start: the first two blocks.
abbrev pub held_at_start : ℕ → Bool
held_at_start i = i == 0 || i == 1

pub held_at_start-Holds : (n : ℕ) → 2 ≤ n → Holds n 0 held_at_start
held_at_start-Holds n two = record {
  this = ground (arith, mod_small 0 n);
  next = ground (arith, mod_small 1 n);
  other = λ i not_this not_next. ground (arith, mod_small 0 n, mod_small 1 n);
}
