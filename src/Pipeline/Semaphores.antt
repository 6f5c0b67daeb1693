-- ===== src/Pipeline/Semaphores.antt =====
-- What hashpipe documents of the semaphores of a buffer: each block is free or filled; the calls set_free
-- and set_filled say which, a wait returns HASHPIPE_OK exactly if the block is as it is waited for, and
-- changes nothing. Waiting for another thread is a matter of the steps of that thread.
use serendip6_reobs.Base.{
  ℕ, zero, suc, ◌≡◌, refl, Bool, true, false, update, Result, ok, err, Fault, ok-injective,
}
use serendip6_reobs.Databuf.{Rv, Hashpipe}
use serendip6_reobs.Databuf.Wait.{wait_loop}

pub record Semaphores (hp : Hashpipe) : Type 0 where
  -- Whether a block is filled.
  pub filled : hp.Header → ℕ → Bool
  pub fill : (h : hp.Header) (i j : ℕ) → filled (hp.set_filled h i).1 j ≡ update (filled h) i true j
  pub free : (h : hp.Header) (i j : ℕ) → filled (hp.set_free h i).1 j ≡ update (filled h) i false j
  pub acquire :
      (h : hp.Header) (i j : ℕ)
      → filled h i ≡ false
      → filled (hp.busywait_free h i).1 j ≡ filled h j
  pub see_filled : (h : hp.Header) (i j : ℕ) → filled (hp.wait_filled h i).1 j ≡ filled h j
  pub see_free : (h : hp.Header) (i j : ℕ) → filled (hp.wait_free h i).1 j ≡ filled h j
  pub filled_seen :
      (h : hp.Header) (i : ℕ) → (hp.wait_filled h i).0 ≡ Rv.hashpipe_ok → filled h i ≡ true
  pub free_seen :
      (h : hp.Header) (i : ℕ) → (hp.wait_free h i).0 ≡ Rv.hashpipe_ok → filled h i ≡ false
  pub sees_filled :
      (h : hp.Header) (i : ℕ) → filled h i ≡ true → (hp.wait_filled h i).0 ≡ Rv.hashpipe_ok
  pub sees_free :
      (h : hp.Header) (i : ℕ) → filled h i ≡ false → (hp.wait_free h i).0 ≡ Rv.hashpipe_ok

-- A wait that returns has made a last call, which has succeeded, on a state that the calls before it keep.
pub wait_loop_last {ℓ κ} :
    {H : Type ℓ} (P : H → Type κ) (wait : H → Rv × H)
    → ((h : H) → P h → P (wait h).1)
    → (fuel : ℕ) (h : H) {h' : H} → P h
    → wait_loop fuel wait h ≡ ok h'
    → (h1 : H) × P h1 × ((wait h1).0 ≡ Rv.hashpipe_ok) × ((wait h1).1 ≡ h')
unfolding wait_loop
wait_loop_last P wait keep zero h p e = cc
wait_loop_last {H} P wait keep (suc k) h {h'} p e =
    go (wait h).0 refl (λ q d. wait_loop_last P wait keep k (wait h).1 q d) e
  where
    go :
        (rv : Rv)
        → (wait h).0 ≡ rv
        → (P (wait h).1
            → wait_loop k wait (wait h).1 ≡ ok h'
            → (h1 : H) × P h1 × ((wait h1).0 ≡ Rv.hashpipe_ok) × ((wait h1).1 ≡ h'))
        → (elim rv as (λ _. Result H) [
          | Rv.hashpipe_ok ↦ ok (wait h).1
          | Rv.hashpipe_timeout ↦ wait_loop k wait (wait h).1
          | Rv.hashpipe_err ↦ err Fault.thread_exit
        ])
          ≡ ok h'
        → (h1 : H) × P h1 × ((wait h1).0 ≡ Rv.hashpipe_ok) × ((wait h1).1 ≡ h')
    go Rv.hashpipe_ok called again d = (h, p, called, ok-injective d)
    go Rv.hashpipe_timeout called again d = again (keep h p) d
    go Rv.hashpipe_err called again d = cc
