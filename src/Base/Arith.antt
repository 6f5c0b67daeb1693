-- ===== src/Base/Arith.antt =====
-- Division and remainder by a variable, as the ring of blocks uses them.
use Prim.Native.Nat.{ℕ, ◌+◌, ◌-◌, ◌*◌, ◌/◌, ◌%◌, ◌≤◌, ◌<◌}
use mathlib.Core.Path.{◌≡◌, sym, ap, ◌∙◌}
use mathlib.Core.Logic.{◌≢◌}
use native.Mathlib.Nat.{mod-eq_of_lt, mod-lt, mod-add-mod}
use native.Mathlib.Omega.{arith}

-- A quotient is known from the multiples that surround the number.
pub div-eq : (x q m : ℕ) → q * m ≤ x → x < q * m + m → x / m ≡ q
div-eq x q m lo hi = grind arith

pub mod-eq : (x q m : ℕ) → q * m ≤ x → x < q * m + m → x % m ≡ x - q * m
mod-eq x q m lo hi = grind arith

-- One place further in the ring.
pub succ-mod : (s n : ℕ) → (s % n + 1) % n ≡ (s + 1) % n
succ-mod s n = mod-add-mod s n 1

pub succ-mod-ne : (s n : ℕ) → 1 < n → s % n ≢ (s + 1) % n
succ-mod-ne s n h = grind (arith, succ-mod s n)

-- From a place in the ring to another, the shorter way or once round.
pub mod-advance : (p b n : ℕ) → 0 < n → p % n ≤ b → (p + (b - p % n)) % n ≡ b % n
mod-advance p b n pos h = sym (mod-add-mod p n (b - p % n)) ∙ ap (λ k. k % n) (omega arith)

pub mod_around : (b n : ℕ) → b < n → (b + n) % n ≡ b
mod_around b n h = grind arith

pub mod_small : (b n : ℕ) → b < n → b % n ≡ b
mod_small b n h = mod-eq_of_lt h

pub mod_below : (a n : ℕ) → 0 < n → a % n < n
mod_below a n h = mod-lt a h

pub mul-le_left : (m a b : ℕ) → a ≤ b → m * a ≤ m * b
mul-le_left m a b h = grind arith

pub mul-le_right : (a b m : ℕ) → a ≤ b → a * m ≤ b * m
mul-le_right a b m h = grind arith

pub mul-add_right : (p d w : ℕ) → (p + d) * w ≡ p * w + w * d
mul-add_right p d w = omega arith
