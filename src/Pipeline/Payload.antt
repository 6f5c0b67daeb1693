-- ===== src/Pipeline/Payload.antt =====
-- From the packets of src/s6_pktsock_thread.cpp to the files of src/s6_output_thread.cpp.
use serendip6_reobs.Base.{
  ℕ, ◌+◌, ◌*◌, ◌%◌, ◌≤◌, ◌<◌, ◌≡◌, refl, sym, ap, ◌∙◌, arith, Option, none, some, List, [], ◌∷◌,
  ◌++◌, length,
}
use native.Mathlib.Nat.{div-mul-le_self}
use mathlib.Core.Path.{subst}
use mathlib.Core.List.{Forall₂}
use mathlib.Mathlib.Data.List.Forall2.{rel-append}
use serendip6_reobs.Config.{Config, fast_of, n_data_bytes_per_block}
use serendip6_reobs.Databuf.{Hashpipe}
use serendip6_reobs.Window.{hands_over}
use serendip6_reobs.Window.Order.{hands_over-some}
use serendip6_reobs.Pktsock.{Frame, PktState, nm}
use serendip6_reobs.Pktsock.Header.{get_header}
use serendip6_reobs.Pktsock.Process.{fast_offset}
use serendip6_reobs.Pktsock.Ring.{IsUsable, CallsSucceed}
use serendip6_reobs.Pktsock.Trace.{shape}
use serendip6_reobs.Pktsock.Layout.{fast_offset_bounds}
use serendip6_reobs.Pktsock.Assembly.{IsWhole, Assembly, HasPayloads}
use serendip6_reobs.Pktsock.Payloads.{receive-HasPayloads}
use serendip6_reobs.Gpu.Passing.{gpu_round-passes}
use serendip6_reobs.Base.Related.{Forall₂-front, Forall₂-then}
use serendip6_reobs.Pipeline.Parcels.{
  Parcel, AreWhole, assembly, parcel, parcels, HoldsParcel, IsFileOf,
}
use serendip6_reobs.Pipeline.Semaphores.{Semaphores}
use serendip6_reobs.Pipeline.System.{
  System, Event, frames, handed_over, outcomes, leaves, data_of, Step, Run,
}
use serendip6_reobs.Pipeline.Incoming.{window_of-Follows}
use serendip6_reobs.Pipeline.Outgoing.{Follows-freed}
use serendip6_reobs.Pipeline.Invariant.{listed}
use serendip6_reobs.Pipeline.Delivered.{handed_over-packet}
use serendip6_reobs.Pipeline.Delivery.{
  IsStart, handed_over-outcomes, start-Follows, fast-IsPipeline,
}

module _ (n : ℕ) (u : IsUsable (fast_of n)) {hp : Hashpipe} (k : CallsSucceed hp)
    (sem : Semaphores hp) where
  -- The places of the payloads in a block.
  in_order : (m : ℕ) → m % nm (fast_of n) * 4096 ≡ fast_offset (fast_of n) m
  in_order m = omega arith

  -- The data that are handed over at a frame, and what the frames say of them.
  handed-HoldsParcel :
      (s : PktState hp) (f : Frame) (a : Assembly)
      → HasPayloads n s a
      → Forall₂ (HoldsParcel n) (listed (data_of (fast_of n) s (leaves (fast_of n) s f))) (
          parcel
            (fast_of n)
            (hands_over (shape (fast_of n)) (get_header (fast_of n) f).mcnt a.window)
            a)
  handed-HoldsParcel s f a has =
      rw leaving (by_handing (hands_over (shape c) (get_header c f).mcnt a.window) refl)
    where
      c : Config
      c = fast_of n

      leaving :
          leaves (fast_of n) s f
          ≡ hands_over (shape (fast_of n)) (get_header (fast_of n) f).mcnt a.window
      leaving =
          ap (hands_over (shape (fast_of n)) (get_header (fast_of n) f).mcnt)
            (window_of-Follows u (omega arith) k sem s a.window has.follows)

      by_handing :
          (o : Option ℕ)
          → hands_over (shape (fast_of n)) (get_header (fast_of n) f).mcnt a.window ≡ o
          → Forall₂ (HoldsParcel n) (listed (data_of (fast_of n) s o)) (parcel (fast_of n) o a)
      by_handing none e = Forall₂.nil
      by_handing (some seq) e =
          Forall₂.cons
            (λ m pay got block i in_place.
              ap (λ x. (s.db.block (seq % (fast_of n).n_input_blocks)).bytes (x + i)) (in_order m)
              ∙ ap
                  (λ q.
                    (s.db.block (q % (fast_of n).n_input_blocks)).bytes
                      (fast_offset (fast_of n) m + i))
                  (sym block)
              ∙ has.placed m pay got
                  (subst (λ q. q * nm (fast_of n) ≤ m)
                    (block
                      ∙ (hands_over-some (shape (fast_of n)) (get_header (fast_of n) f).mcnt
                          a.window e).0)
                    (div-mul-le_self m (nm (fast_of n))))
                  i in_place)
            Forall₂.nil

  -- What holds along a run: the payloads of the window are at their places, and the data that were handed
  -- over hold the parcels of the frames.
  abbrev Carried : System hp → List Event → Type 0
  Carried s es =
      HasPayloads n s.pkt (assembly (fast_of n) (frames es))
      × Forall₂ (HoldsParcel n) (handed_over es) (parcels (fast_of n) (frames es))

  Step-Carried :
      {s t : System hp} (es : List Event) (e : Event)
      → AreWhole (frames (e ∷ es))
      → Carried s es
      → Step (fast_of n) sem s e t
      → Carried t (e ∷ es)
  Step-Carried {s} es e whole (has, held) (Step.packet now f q netmcnt b free run event next) =
      let whole_f : IsWhole f = (rw event at whole).0 in
      rw (event, next)
        (
          receive-HasPayloads n u k s.pkt (assembly (fast_of n) (frames es)) now f whole_f has run,
          rw (handed_over-packet f (data_of (fast_of n) s.pkt (leaves (fast_of n) s.pkt f)) es) (
              rel-append (handed_over es) (parcels (fast_of n) (frames es)) held _ _
                (handed-HoldsParcel s.pkt f (assembly (fast_of n) (frames es)) has)),
        )
  Step-Carried {s} es e whole (has, held) (Step.gpu fuel q run event next) =
      let (_, _, same, _, _, _, _) =
        gpu_round-passes (fast_of n) fuel (record (s.gpu) { db_in = s.pkt.db; db_out = s.out.db })
          run in
      rw (event, next)
        (
          record {
            follows = Follows-freed sem s.pkt q.db_in same has.follows;
            below = has.below;
            placed = rw same has.placed;
          },
          held,
        )
  Step-Carried es e whole carried (Step.output fuel keys opens q run event next) =
      rw (event, next) carried

  -- The same of the frames before the last event.
  AreWhole-before :
      (e : Event) (es : List Event) → AreWhole (frames (e ∷ es)) → AreWhole (frames es)
  AreWhole-before (Event.packet f handed) es whole = whole.1
  AreWhole-before Event.pass_on es whole = whole
  AreWhole-before (Event.output o) es whole = whole

  start-Carried : (s : System hp) → IsStart (fast_of n) sem s → Carried s []
  start-Carried s i = (
    record {
      follows = start-Follows (fast-IsPipeline n u) k sem s i;
      below = λ m pay got. cc;
      placed = λ m pay got. cc;
    },
    Forall₂.nil,
  )

  Run-Carried :
      {s t : System hp} {es : List Event}
      → IsStart (fast_of n) sem s
      → AreWhole (frames es)
      → Run (fast_of n) sem s es t
      → Carried t es
  Run-Carried {s} i whole Run.here = start-Carried s i
  Run-Carried i whole (Run.next {es} {e} run step) =
      Step-Carried es e whole (Run-Carried i (AreWhole-before e es whole) run) step

  -- In a usable SOURCE_FAST build, while the calls on semaphores do what hashpipe documents: from packets to
  -- files. In every run of the three threads from their start on whole frames, in any order of the steps, the
  -- frames alone say which blocks are handed over and what is in them. In order, the rounds of the output
  -- thread are about these blocks, none left out and none twice, but for at most five at the end. Each
  -- round that is to write has left a file in which the payload of the last packet that was accepted for
  -- an mcnt of the block stands at the place of this mcnt, byte for byte.
  pub parcels-outcomes :
      {s t : System hp} {es : List Event}
      → IsStart (fast_of n) sem s
      → AreWhole (frames es)
      → Run (fast_of n) sem s es t
      → (done waiting : List Parcel) × (parcels (fast_of n) (frames es) ≡ done ++ waiting)
        × Forall₂ (IsFileOf n) (outcomes es) done
        × (length waiting ≤ 5)
  parcels-outcomes {es = es} i whole run =
      let (done, waiting, history, written, few) = handed_over-outcomes n u k sem i run in
      let (_, held) = Run-Carried i whole run in
      let (front, rest, split, related, size) =
        Forall₂-front done waiting (parcels (fast_of n) (frames es))
          (subst (λ l. Forall₂ (HoldsParcel n) l (parcels (fast_of n) (frames es))) history held) in
      (
        front,
        rest,
        split,
        Forall₂-then
            (λ r bytes q outcome holds wants.
              (let (f, left, size, same) = outcome wants in
                (
                  f,
                  left,
                  size,
                  λ m pay got block j in_place.
                      same (m % nm (fast_of n) * 4096 + j) (
                        subst (λ x. x + j < n_data_bytes_per_block (fast_of n)) (sym (in_order m))
                          (fast_offset_bounds n m 4096 j (omega (arith, u.mcnts)) (omega arith)
                            in_place))
                      ∙ holds m pay got block j in_place,
                )))
            (outcomes es) done front written related,
        omega (arith, size, few),
      )
