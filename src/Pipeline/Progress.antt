-- ===== src/Pipeline/Progress.antt =====
-- The threads do not wait for each other in a circle: from every state of a run the buffers can be emptied,
-- and then every packet can be taken.
use serendip6_reobs.Base.{
  ℕ, zero, suc, ◌+◌, ◌%◌, ◌≤◌, ◌<◌, ◌≡◌, ok, refl, sym, ap, ◌∙◌, arith, Bool, true, false, Option,
  none, some, List, [], ◌∷◌, ◌++◌, length,
}
use native.Mathlib.Nat.{le_refl}
use mathlib.Core.Path.{subst}
use mathlib.Core.List.{append-nil, append_assoc, Forall₂}
use serendip6_reobs.Config.{Config, fast_of}
use serendip6_reobs.Databuf.{Hashpipe}
use serendip6_reobs.Databuf.Wait.{Succeeds}
use serendip6_reobs.Databuf.Output.{s6_output_databuf_wait_free, s6_output_databuf_wait_filled}
use serendip6_reobs.Window.{hands_over}
use serendip6_reobs.Window.Order.{hands_over-some}
use serendip6_reobs.Pktsock.{Frame, PktState}
use serendip6_reobs.Pktsock.Header.{get_header}
use serendip6_reobs.Pktsock.Process.{process_packet}
use serendip6_reobs.Pktsock.Ring.{IsUsable, CallsSucceed}
use serendip6_reobs.Pktsock.Trace.{IsFrame, shape, process_packet-Moves}
use serendip6_reobs.Gpu.{GpuState, gpu_round}
use serendip6_reobs.Gpu.Passing.{gpu_round-returns}
use serendip6_reobs.Output.{OutputState, Keys, output_round}
use serendip6_reobs.Output.Passing.{wants_file, output_round-returns}
use serendip6_reobs.Pipeline.Ring.{IsFilled}
use serendip6_reobs.Pipeline.Semaphores.{Semaphores}
use serendip6_reobs.Pipeline.System.{
  System, Event, frames, handed_over, outcomes, leaves, CanAcquire, Step, Run,
}
use serendip6_reobs.Pipeline.Incoming.{window_of-Follows, place-next}
use serendip6_reobs.Pipeline.Invariant.{IsPipeline, Holds, IsOutcome}
use serendip6_reobs.Pipeline.Delivered.{Delivered, Delivered-gpu, Delivered-output}
use serendip6_reobs.Pipeline.Delivery.{IsStart, Run-Delivered, fast-IsPipeline}

-- The place behind the last is free, if there is one.
behind_free :
    {n g k : ℕ} {filled : ℕ → Bool} → IsFilled n g k filled → k < n → filled ((g + k) % n) ≡ false
behind_free {k = k} flags room = flags.flag k room ∙ ground arith

-- The first place is filled, if the list is not empty.
first_filled :
    {n g k : ℕ} {filled : ℕ → Bool} → IsFilled n g k filled → 0 < k → filled (g % n) ≡ true
first_filled {n} {filled = filled} flags some_there =
    ap (λ x. filled (x % n)) (omega arith)
    ∙ flags.flag 0 (omega (arith, flags.fits, some_there))
    ∙ ground (arith, some_there)

module _ {c : Config} (p : IsPipeline c) {hp : Hashpipe} (k : CallsSucceed hp)
    (sem : Semaphores hp) where
  open p use {usable, three, one}

  -- The GPU thread can take a round if there is a block in the input buffer and room in the output buffer.
  can_pass :
      (s : System hp) {g o : ℕ} {inq outq : List (ℕ → ℕ)}
      → Holds c sem s g o inq outq
      → 0 < length inq
      → length outq < c.n_output_blocks
      → (t : GpuState hp) × (gpu_round c 1 (record (s.gpu) { db_in = s.pkt.db; db_out = s.out.db })
          ≡ ok t)
  unfolding s6_output_databuf_wait_free
  can_pass s i some_in room =
      gpu_round-returns c 1 (record (s.gpu) { db_in = s.pkt.db; db_out = s.out.db })
        (Succeeds.now (
          ap (λ r. (r, (hp.wait_filled s.pkt.db.header s.gpu.curblock_in).1))
            (sem.sees_filled s.pkt.db.header s.gpu.curblock_in
              (ap (sem.filled s.pkt.db.header) i.taking ∙ first_filled i.incoming.flags some_in))))
        (omega arith)
        (Succeeds.now (
          ap
            (λ r. (
              r,
              record (s.out.db) { header = (hp.wait_free s.out.db.header s.gpu.curblock_out).1 },
            ))
            (sem.sees_free s.out.db.header s.gpu.curblock_out
              (ap (sem.filled s.out.db.header) i.giving ∙ behind_free i.outgoing.flags room))))
        (omega arith)

  -- The output thread can take a round if there is a block in the output buffer.
  can_write :
      (s : System hp) {g o : ℕ} {inq outq : List (ℕ → ℕ)} (keys : Keys)
      → Holds c sem s g o inq outq
      → 0 < length outq
      → (t : OutputState hp) × (output_round c 1 keys true s.out ≡ ok t)
  unfolding s6_output_databuf_wait_filled
  can_write s keys i some_out =
      output_round-returns c 1 keys s.out
        (Succeeds.now (
          ap
            (λ r. (
              r,
              record (s.out.db) { header = (hp.wait_filled s.out.db.header s.out.block_idx).1 },
            ))
            (sem.sees_filled s.out.db.header s.out.block_idx (
              ap (sem.filled s.out.db.header) i.writing ∙ first_filled i.outgoing.flags some_out))))
        (omega arith)

  -- The packet thread can take any packet if there is a block more in the buffer than those that are filled
  -- and the two that it holds.
  can_take :
      (s : System hp) {g o : ℕ} {inq outq : List (ℕ → ℕ)} (now : ℕ × ℕ) (f : Frame)
      → Holds c sem s g o inq outq
      → length inq + 2 < c.n_input_blocks
      → IsFrame f
      → CanAcquire c sem s.pkt (leaves c s.pkt f)
        × ((t : PktState hp) × (r : ℕ) × (process_packet c now f s.pkt ≡ ok (t, r)))
  can_take s {inq = inq} now f i room b =
      let (t, r, e, _, _, _) = process_packet-Moves usable k s.pkt now f b i.incoming.follows in
      (acquires (leaves c s.pkt f) leaving, (t, r, e))
    where
      leaving : leaves c s.pkt f ≡ hands_over (shape c) (get_header c f).mcnt i.window
      leaving =
          ap (hands_over (shape c) (get_header c f).mcnt)
            (window_of-Follows usable three k sem s.pkt i.window i.incoming.follows)

      acquires :
          (l : Option ℕ)
          → l ≡ hands_over (shape c) (get_header c f).mcnt i.window
          → CanAcquire c sem s.pkt l
      acquires none at = tt
      acquires (some seq) at =
          let (this, _) = hands_over-some (shape c) (get_header c f).mcnt i.window (sym at) in
          ap (λ x. sem.filled s.pkt.db.header ((x + 2) % c.n_input_blocks)) this
          ∙ ap (sem.filled s.pkt.db.header) (place-next usable three k sem 2 i.incoming)
          ∙ i.incoming.flags.flag (length inq + 2) room
          ∙ ground arith

  -- A run goes on from `es` to `later`, without another packet, until both buffers are empty.
  abbrev Drains : System hp → List Event → Type 0
  Drains s0 es =
      (later : List Event) × (t : System hp) × Run c sem s0 later t
      × ((more : List Event) × (later ≡ more ++ es))
      × (frames later ≡ frames es)
      × (handed_over later ≡ handed_over es)
      × Delivered c sem t later [] []

  Drains-step :
      {s0 : System hp} {es : List Event} (e : Event)
      → frames (e ∷ es) ≡ frames es
      → handed_over (e ∷ es) ≡ handed_over es
      → Drains s0 (e ∷ es)
      → Drains s0 es
  Drains-step {es = es} e taken handed (later, t, run, (more, on), taken', handed', empty) = (
    later,
    t,
    run,
    (more ++ (e ∷ []), on ∙ sym (append_assoc more (e ∷ []) es)),
    taken' ∙ taken,
    handed' ∙ handed,
    empty,
  )

  drains :
      (n : ℕ) (keys : Keys) {s0 s : System hp} {es : List Event} (inq outq : List (ℕ → ℕ))
      → length inq + length inq + length outq ≤ n
      → Delivered c sem s es inq outq
      → Run c sem s0 es s
      → Drains s0 es
  drains n keys {s = s} {es = es} [] [] left d run = (es, s, run, ([], refl), refl, refl, d)
  drains zero keys (b ∷ inq) outq left d run = absurd (omega (arith, left))
  drains zero keys [] (b ∷ outq) left d run = absurd (omega (arith, left))
  drains (suc n) keys {s = s} inq (b ∷ outq) left d run =
      let (t, round) = can_write s keys d.holds (omega arith) in
      let (bytes, rest, front, now) = Delivered-output p k sem 1 keys true d round in
      Drains-step (Event.output (record { wants = wants_file keys s.out; file = t.file })) refl refl
        (drains n keys inq rest (omega (arith, left, ap length front)) now
          (Run.next run (Step.output 1 keys true t round refl refl)))
  drains (suc n) keys {s = s} (b ∷ inq) [] left d run =
      let (t, round) = can_pass s d.holds (omega arith) one in
      let (bytes, rest, front, now) = Delivered-gpu p k sem 1 d round in
      Drains-step Event.pass_on refl refl (
        drains n keys rest (bytes ∷ []) (omega (arith, left, ap length front)) now
          (Run.next run (Step.gpu 1 t round refl refl)))

-- For SOURCE_FAST, in a usable build, while the calls on semaphores do what hashpipe documents: no run of
-- the three threads comes to a deadlock. Whatever the run was, some rounds of the GPU thread and of the
-- output thread, in which the file can be made, lead without another packet to a state where every block
-- that was handed over has had its round of the output thread, with the outcome of that block; and in this
-- state every frame of bytes can be taken: the block that the packet thread then waits for, if any, is free,
-- and process_packet returns.
pub Run-can_drain :
    (n : ℕ) {hp : Hashpipe} {s0 s : System hp} {es : List Event}
    → IsUsable (fast_of n)
    → CallsSucceed hp
    → (sem : Semaphores hp) → (keys : Keys) → IsStart (fast_of n) sem s0
    → Run (fast_of n) sem s0 es s
    → (later : List Event) × (t : System hp) × Run (fast_of n) sem s0 later t
      × ((more : List Event) × (later ≡ more ++ es))
      × (frames later ≡ frames es)
      × (handed_over later ≡ handed_over es)
      × Forall₂ (IsOutcome (fast_of n)) (outcomes later) (handed_over es)
      × ((now : ℕ × ℕ) (f : Frame)
          → IsFrame f
          → CanAcquire (fast_of n) sem t.pkt (leaves (fast_of n) t.pkt f)
            × ((p : PktState hp) × (netmcnt : ℕ) × (process_packet (fast_of n) now f t.pkt
                  ≡ ok (p, netmcnt))))
Run-can_drain n u k sem keys start run =
    let p = fast-IsPipeline n u in
    let (inq, outq, d) = Run-Delivered p k sem start run in
    let (later, t, run', more, taken, handed, empty) =
      drains p k sem _ keys inq outq (le_refl _) d run in
    (
      later,
      t,
      run',
      more,
      taken,
      handed,
      subst (λ l. Forall₂ (IsOutcome (fast_of n)) (outcomes later) l)
          (sym (append-nil empty.done) ∙ sym empty.history ∙ handed) empty.outcome,
      λ now f b. can_take p k sem t now f empty.holds (omega arith) b,
    )
