-- ===== src/Base/Effects.antt =====
-- How a thread's code can fail to return, and the chain of such steps.
use mathlib.Core.Path.{◌≡◌, refl, ap}

-- `thread_exit` is pthread_exit; `div_by_zero` is the trap of an integer division;
-- `still_waiting` is no end at all: the bound that the model puts on the rounds of a wait is met.
pub data Fault : Type 0 where
  thread_exit : Fault
  div_by_zero : Fault
  still_waiting : Fault

pub data Result {ℓ} (Out : Type ℓ) : Type ℓ where
  err : Fault → Result Out
  ok : Out → Result Out

-- A step, and what comes after it if it returns.
infixl 5 ◌>>=◌
abbrev pub ◌>>=◌ {ℓ κ} :
    {Out : Type ℓ} {Next : Type κ} → Result Out → (Out → Result Next) → Result Next
err fault >>= after = err fault
ok out >>= after = after out

-- If a chain returns, its first step did, and the rest did on what that gave.
pub >>=-eq-ok {ℓ κ} :
    {Out : Type ℓ} {Next : Type κ} (step : Result Out) (after : Out → Result Next) {next : Next}
    → (step >>= after) ≡ ok next
    → (out : Out) × (step ≡ ok out) × (after out ≡ ok next)
>>=-eq-ok (err fault) after returned = cc
>>=-eq-ok (ok out) after returned = (out, refl, returned)

pub ok-injective {ℓ} : {A : Type ℓ} {a b : A} → ok a ≡ ok b → a ≡ b
ok-injective {A} {a} {b} h = ap (value a) h
  where
    value : A → Result A → A
    value d (ok x) = x
    value d (err e) = d
