-- ===== src/Databuf/Wait.antt =====
-- The loop in which the threads wait for a block: a timeout is tried again, any other error ends the
-- thread. The line that it puts into the status buffer on a timeout is overwritten when it returns.
use serendip6_reobs.Base.{
  ℕ, zero, suc, ◌<◌, ◌≡◌, ap, ◌∙◌, Result, ok, err, Fault, ok-injective, arith,
}
use serendip6_reobs.Databuf.{Rv}

-- while ((rv = wait(...)) != HASHPIPE_OK) { if (rv == HASHPIPE_TIMEOUT) continue; else pthread_exit; },
-- at most `fuel` calls of it.
unfoldable pub wait_loop {ℓ} : {H : Type ℓ} → (fuel : ℕ) → (H → Rv × H) → H → Result H
wait_loop zero wait h = err Fault.still_waiting
wait_loop (suc k) wait h =
    let (rv, h') = wait h in
    elim rv [
      | Rv.hashpipe_ok ↦ ok h'
      | Rv.hashpipe_timeout ↦ wait_loop k wait h'
      | Rv.hashpipe_err ↦ err Fault.thread_exit
    ]

-- `wait` times out `n` times from `h` on, and then succeeds with `h'`.
pub data Succeeds {ℓ} {H : Type ℓ} (wait : H → Rv × H) : ℕ → H → H → Type ℓ where
  now : {h h' : H} → wait h ≡ (Rv.hashpipe_ok, h') → Succeeds wait 0 h h'
  later :
      {n : ℕ} {h h1 h' : H}
      → wait h ≡ (Rv.hashpipe_timeout, h1)
      → Succeeds wait n h1 h'
      → Succeeds wait (suc n) h h'

-- The loop returns if the call succeeds after fewer timeouts than the bound.
pub wait_loop-Succeeds {ℓ} :
    {H : Type ℓ} (wait : H → Rv × H) {n : ℕ} (fuel : ℕ) {h h' : H}
    → Succeeds wait n h h'
    → n < fuel
    → wait_loop fuel wait h ≡ ok h'
unfolding wait_loop
wait_loop-Succeeds wait zero (now e) lt = absurd (omega arith)
wait_loop-Succeeds wait (suc k) (now e) lt = rw (e, wait_loop) (ap (λ (p : Rv × _). ok p.1) e)
wait_loop-Succeeds wait zero (later e r) lt = absurd (omega arith)
wait_loop-Succeeds wait (suc k) (later e r) lt =
    rw (e, wait_loop)
      (ap (λ (p : Rv × _). wait_loop k wait p.1) e ∙ wait_loop-Succeeds wait k r (omega arith))

-- What the call keeps, the loop keeps.
pub wait_loop_keeps {ℓ κ} :
    {H : Type ℓ} (P : H → Type κ) (wait : H → Rv × H)
    → ((h : H) → P h → P (wait h).1)
    → (fuel : ℕ) (h : H) {h' : H} → P h
    → wait_loop fuel wait h ≡ ok h'
    → P h'
unfolding wait_loop
wait_loop_keeps P wait keep zero h p e = cc
wait_loop_keeps {H} P wait keep (suc k) h {h'} p e =
    go (wait h).0 (wait h).1 (keep h p) (λ h1 q d. wait_loop_keeps P wait keep k h1 q d) e
  where
    go :
        (rv : Rv) (h1 : H)
        → P h1
        → ((h2 : H) → P h2 → wait_loop k wait h2 ≡ ok h' → P h')
        → (elim rv as (λ _. Result H) [
          | Rv.hashpipe_ok ↦ ok h1
          | Rv.hashpipe_timeout ↦ wait_loop k wait h1
          | Rv.hashpipe_err ↦ err Fault.thread_exit
        ])
          ≡ ok h'
        → P h'
    go Rv.hashpipe_ok h1 q again d = rw (← ok-injective d) q
    go Rv.hashpipe_timeout h1 q again d = again h1 q d
    go Rv.hashpipe_err h1 q again d = cc
