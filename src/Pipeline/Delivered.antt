-- ===== src/Pipeline/Delivered.antt =====
-- What was handed over is written or still in the buffers: every step of the three threads keeps this.
use serendip6_reobs.Base.{
  ℕ, suc, ◌≡◌, ok, refl, sym, ap, ◌∙◌, Bool, Option, none, some, List, [], ◌∷◌, ◌++◌,
}
use mathlib.Core.List.{append-nil, append_assoc, Forall₂}
use mathlib.Mathlib.Data.List.Forall2.{rel-append}
use serendip6_reobs.Config.{Config}
use serendip6_reobs.Databuf.{Hashpipe}
use serendip6_reobs.Pktsock.{Frame, PktState}
use serendip6_reobs.Pktsock.Process.{process_packet}
use serendip6_reobs.Pktsock.Trace.{IsFrame}
use serendip6_reobs.Gpu.{GpuState, gpu_round}
use serendip6_reobs.Pktsock.Ring.{CallsSucceed}
use serendip6_reobs.Output.{OutputState, Keys, output_round}
use serendip6_reobs.Output.Passing.{wants_file}
use serendip6_reobs.Pipeline.Semaphores.{Semaphores}
use serendip6_reobs.Pipeline.System.{
  System, Event, handed_over, outcomes, leaves, data_of, CanAcquire, Step,
}
use serendip6_reobs.Pipeline.Invariant.{
  IsPipeline, Holds, IsOutcome, listed, Holds-packet, Holds-gpu, Holds-output,
}

-- The data that was handed over is, in order, what the rounds of the output thread were about, `done`, and
-- what is still in the output buffer, `outq`, and in the input buffer, `inq`.
pub record Delivered (c : Config) {hp : Hashpipe} (sem : Semaphores hp) (s : System hp)
    (es : List Event) (inq outq : List (ℕ → ℕ)) : Type 0 where
  pub g : ℕ
  pub o : ℕ
  pub done : List (ℕ → ℕ)
  pub holds : Holds c sem s g o inq outq
  pub history : handed_over es ≡ done ++ (outq ++ inq)
  pub outcome : Forall₂ (IsOutcome c) (outcomes es) done

pub handed_over-packet :
    (f : Frame) (handed : Option (ℕ → ℕ)) (es : List Event)
    → handed_over (Event.packet f handed ∷ es) ≡ handed_over es ++ listed handed
handed_over-packet f none es = sym (append-nil (handed_over es))
handed_over-packet f (some bytes) es = refl

module _ {c : Config} (p : IsPipeline c) {hp : Hashpipe} (k : CallsSucceed hp)
    (sem : Semaphores hp) where
  open p use {usable, three, one}

  Delivered-packet :
      {s : System hp} {es : List Event} {inq outq : List (ℕ → ℕ)} (now : ℕ × ℕ) (f : Frame)
      {t : PktState hp} {r : ℕ}
      → Delivered c sem s es inq outq
      → IsFrame f
      → CanAcquire c sem s.pkt (leaves c s.pkt f)
      → process_packet c now f s.pkt ≡ ok (t, r)
      → let handed = data_of c s.pkt (leaves c s.pkt f) in
        Delivered c sem
          (record s { pkt = t })
          (Event.packet f handed ∷ es)
          (inq ++ listed handed)
          outq
  Delivered-packet {s} {es} now f d b free run =
      let handed = data_of c s.pkt (leaves c s.pkt f) in
      record {
        g = d.g;
        o = d.o;
        done = d.done;
        holds = Holds-packet p k sem s now f d.holds b free run;
        history =
            handed_over-packet f handed es
            ∙ ap (λ l. l ++ listed handed) d.history
            ∙ simp (append_assoc);
        outcome = d.outcome;
      }

  pub Delivered-gpu :
      {s : System hp} {es : List Event} {inq outq : List (ℕ → ℕ)} (fuel : ℕ) {t : GpuState hp}
      → Delivered c sem s es inq outq
      → gpu_round c fuel (record (s.gpu) { db_in = s.pkt.db; db_out = s.out.db }) ≡ ok t
      → (bytes : ℕ → ℕ) × (rest : List (ℕ → ℕ)) × (inq ≡ bytes ∷ rest)
        × Delivered c sem
            (record s {
              pkt = record (s.pkt) { db = t.db_in };
              gpu = t;
              out = record (s.out) { db = t.db_out };
            })
            (Event.pass_on ∷ es)
            rest
            (outq ++ (bytes ∷ []))
  Delivered-gpu {s} {outq = outq} fuel d run =
      let (bytes, rest, front, now) = Holds-gpu p k sem s fuel d.holds run in
      (
        bytes,
        rest,
        front,
        record {
          g = suc d.g;
          o = d.o;
          done = d.done;
          holds = now;
          history = d.history ∙ ap (λ l. d.done ++ (outq ++ l)) front ∙ simp (append_assoc);
          outcome = d.outcome;
        },
      )

  pub Delivered-output :
      {s : System hp} {es : List Event} {inq outq : List (ℕ → ℕ)} (fuel : ℕ) (keys : Keys)
      (opens : Bool) {t : OutputState hp}
      → Delivered c sem s es inq outq
      → output_round c fuel keys opens s.out ≡ ok t
      → (bytes : ℕ → ℕ) × (rest : List (ℕ → ℕ)) × (outq ≡ bytes ∷ rest)
        × Delivered c sem
            (record s { out = t })
            (Event.output (record { wants = wants_file keys s.out; file = t.file }) ∷ es)
            inq
            rest
  Delivered-output {s} {es} {inq} fuel keys opens d run =
      let (bytes, rest, front, now, outcome) = Holds-output p k sem s fuel keys opens d.holds run in
      (
        bytes,
        rest,
        front,
        record {
          g = d.g;
          o = suc d.o;
          done = d.done ++ (bytes ∷ []);
          holds = now;
          history = d.history ∙ ap (λ l. d.done ++ (l ++ inq)) front ∙ simp (append_assoc);
          outcome =
              rel-append (outcomes es) d.done d.outcome _ _ (Forall₂.cons outcome Forall₂.nil);
        },
      )

  pub Step-Delivered :
      {s t : System hp} {es : List Event} {inq outq : List (ℕ → ℕ)} {e : Event}
      → Delivered c sem s es inq outq
      → Step c sem s e t
      → (inq1 : List (ℕ → ℕ)) × (outq1 : List (ℕ → ℕ)) × Delivered c sem t (e ∷ es) inq1 outq1
  Step-Delivered d (Step.packet now f q netmcnt b free run event next) =
      rw (event, next) (_, _, Delivered-packet now f d b free run)
  Step-Delivered d (Step.gpu fuel q run event next) =
      let (_, _, _, now) = Delivered-gpu fuel d run in rw (event, next) (_, _, now)
  Step-Delivered d (Step.output fuel keys opens q run event next) =
      let (_, _, _, now) = Delivered-output fuel keys opens d run in rw (event, next) (_, _, now)
