-- ===== src/Base/Related.antt =====
-- Lists whose entries correspond one to one.
use Prim.Native.Nat.{suc}
use mathlib.Core.Path.{◌≡◌, refl, ap}
use mathlib.Core.List.{List, [], ◌∷◌, ◌++◌, Forall₂}
use serendip6_reobs.Base.Lists.{length}

module _ {ℓ κ μ} {A : Type ℓ} {B : Type κ} {R : A → B → Type μ} where
  -- What corresponds to the front of a list is a front.
  pub Forall₂-front :
      (xs ys : List A) (q : List B)
      → Forall₂ R (xs ++ ys) q
      → (front : List B) × (rest : List B) × (q ≡ front ++ rest)
        × Forall₂ R xs front
        × (length rest ≡ length ys)
  Forall₂-front [] ys q h = ([], q, refl, Forall₂.nil, same_length ys q h)
    where
      same_length : (ys : List A) (q : List B) → Forall₂ R ys q → length q ≡ length ys
      same_length [] [] Forall₂.nil = refl
      same_length [] (b ∷ q) h = elim h [ ]
      same_length (y ∷ ys) [] h = elim h [ ]
      same_length (y ∷ ys) (b ∷ q) (Forall₂.cons r t) = ap suc (same_length ys q t)
  Forall₂-front (x ∷ xs) ys [] h = elim h [ ]
  Forall₂-front (x ∷ xs) ys (b ∷ q) (Forall₂.cons r t) =
      let (front, rest, split, related, size) = Forall₂-front xs ys q t in
      (b ∷ front, rest, ap (λ l. b ∷ l) split, Forall₂.cons r related, size)

-- One relation after the other.
pub Forall₂-then {ℓ κ μ ρ σ τ} :
    {A : Type ℓ} {B : Type κ} {C : Type μ} {R : A → B → Type ρ} {S : B → C → Type σ}
    {T : A → C → Type τ}
    → ((a : A) (b : B) (c : C) → R a b → S b c → T a c)
    → (xs : List A) (ys : List B) (zs : List C) → Forall₂ R xs ys
    → Forall₂ S ys zs
    → Forall₂ T xs zs
Forall₂-then both [] [] [] Forall₂.nil Forall₂.nil = Forall₂.nil
Forall₂-then both [] [] (c ∷ zs) h g = elim g [ ]
Forall₂-then both [] (b ∷ ys) zs h g = elim h [ ]
Forall₂-then both (a ∷ xs) [] zs h g = elim h [ ]
Forall₂-then both (a ∷ xs) (b ∷ ys) [] h g = elim g [ ]
Forall₂-then both (a ∷ xs) (b ∷ ys) (c ∷ zs) (Forall₂.cons r t) (Forall₂.cons s u) =
    Forall₂.cons (both a b c r s) (Forall₂-then both xs ys zs t u)
