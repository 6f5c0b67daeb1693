-- ===== src/Pipeline/Invariant.antt =====
-- What holds between the steps of the three threads, and that every step keeps it.
use serendip6_reobs.Base.{
  ℕ, suc, ◌+◌, ◌%◌, ◌≤◌, ◌<◌, ◌≡◌, ◌≢◌, ok, refl, sym, ap, ◌∙◌, arith, Bool, true, Option, none,
  some, List, [], ◌∷◌, ◌++◌, length, length-snoc,
}
use serendip6_reobs.Base.Arith.{succ-mod}
use mathlib.Core.Path.{subst}
use mathlib.Core.List.{append-nil}
use serendip6_reobs.Config.{Config, n_data_bytes_per_block}
use serendip6_reobs.Databuf.{Hashpipe}
use serendip6_reobs.Window.{Window, move, hands_over}
use serendip6_reobs.Pktsock.{Frame, PktState}
use serendip6_reobs.Pktsock.Header.{get_header}
use serendip6_reobs.Pktsock.Process.{process_packet}
use serendip6_reobs.Pktsock.Ring.{IsUsable, CallsSucceed}
use serendip6_reobs.Pktsock.Trace.{IsFrame, shape}
use serendip6_reobs.Gpu.{GpuState, gpu_round}
use serendip6_reobs.Gpu.Passing.{gpu_round-passes}
use serendip6_reobs.Output.{OutputState, Keys, File, output_round}
use serendip6_reobs.Output.Passing.{wants_file, file_of, output_round-writes}
use serendip6_reobs.Pipeline.Ring.{IsFilled-some}
use serendip6_reobs.Pipeline.Semaphores.{Semaphores}
use serendip6_reobs.Pipeline.Rounds.{gpu_round-semaphores, output_round-semaphores}
use serendip6_reobs.Pipeline.System.{System, Outcome, leaves, data_of, CanAcquire}
use serendip6_reobs.Pipeline.Incoming.{Incoming, window_of-Follows, Incoming-kept, Incoming-handed}
use serendip6_reobs.Pipeline.Outgoing.{
  IsWhole, Outgoing, Incoming-taken, Outgoing-push, Outgoing-pop,
}

-- What the three threads need of the constants.
pub record IsPipeline (c : Config) : Type 0 where
  pub usable : IsUsable c
  pub three : 3 ≤ c.n_input_blocks
  pub one : 0 < c.n_output_blocks
  pub whole : IsWhole c

-- The data `inq` is in the input buffer, from block number `g` on, and `outq` in the output buffer, from
-- number `o` on; and each thread stands at its end of the two queues.
pub record Holds (c : Config) {hp : Hashpipe} (sem : Semaphores hp) (s : System hp) (g o : ℕ)
    (inq outq : List (ℕ → ℕ)) : Type 0 where
  pub window : Window
  pub incoming : Incoming c sem s.pkt window g inq
  pub outgoing : Outgoing c sem s.out.db o outq
  pub taking : s.gpu.curblock_in ≡ g % c.n_input_blocks
  pub giving : s.gpu.curblock_out ≡ (o + length outq) % c.n_output_blocks
  pub first_mcount : s.gpu.last_mcount ≡ 0
  pub some_chan : s.gpu.num_coarse_chan ≢ 0
  pub writing : s.out.block_idx ≡ o % c.n_output_blocks

-- What a round is meant to leave of the data of its block: if it is to write, a file of the length of the
-- data of a block, with this data byte for byte.
abbrev pub IsOutcome : Config → Outcome → (ℕ → ℕ) → Type 0
IsOutcome c r bytes =
    r.wants ≡ true
    → (f : File) × (r.file ≡ some f)
      × (f.length ≡ n_data_bytes_per_block c)
      × ((j : ℕ) → j < n_data_bytes_per_block c → f.bytes j ≡ bytes j)

-- The entry that a packet adds to the queue, if any.
abbrev pub listed : Option (ℕ → ℕ) → List (ℕ → ℕ)
listed none = []
listed (some bytes) = bytes ∷ []

module _ {c : Config} (p : IsPipeline c) {hp : Hashpipe} (k : CallsSucceed hp)
    (sem : Semaphores hp) where
  open p use {usable, three, one, whole}

  -- The next place of a ring.
  next_place : (n x y : ℕ) → x ≡ y % n → (x + 1) % n ≡ (y + 1) % n
  next_place n x y at = ap (λ z. (z + 1) % n) at ∙ succ-mod y n

  -- A round of the output thread takes the first entry of the output buffer, and its outcome is that of
  -- this entry.
  pub Holds-output :
      (s : System hp) {g o : ℕ} {inq outq : List (ℕ → ℕ)} (fuel : ℕ) (keys : Keys) (opens : Bool)
      {t : OutputState hp}
      → Holds c sem s g o inq outq
      → output_round c fuel keys opens s.out ≡ ok t
      → (bytes : ℕ → ℕ) × (rest : List (ℕ → ℕ)) × (outq ≡ bytes ∷ rest)
        × Holds c sem (record s { out = t }) g (suc o) inq rest
        × IsOutcome c (record { wants = wants_file keys s.out; file = t.file }) bytes
  Holds-output s {g} {o} {inq} {outq} fuel keys opens {t} i e =
      let (index, size, _, same, file) = output_round-writes c fuel keys opens s.out e in
      let (was_filled, freed) = output_round-semaphores sem c fuel keys opens s.out e in
      let (bytes, rest, front) =
        IsFilled-some outq one i.outgoing.flags (rw i.writing at was_filled) in
      let out : Outgoing c sem s.out.db o (bytes ∷ rest) =
        subst (λ q. Outgoing c sem s.out.db o q) front i.outgoing in
      (
        bytes,
        rest,
        front,
        record {
          window = i.window;
          incoming = i.incoming;
          outgoing =
              Outgoing-pop sem one out (λ j ne. same j (λ at. ne (at ∙ i.writing))) size
                (λ j. rw i.writing at freed j);
          taking = i.taking;
          giving =
              i.giving
              ∙ ap (λ x. (o + x) % c.n_output_blocks) (ap length front)
              ∙ ap (λ x. x % c.n_output_blocks) (omega arith);
          first_mcount = i.first_mcount;
          some_chan = i.some_chan;
          writing =
              index
              ∙ ap (λ n. (s.out.block_idx + 1) % n) i.outgoing.size
              ∙ next_place c.n_output_blocks s.out.block_idx o i.writing
              ∙ ap (λ x. x % c.n_output_blocks) (omega arith);
        },
        λ wants. (
          file_of c (s.out.db.block s.out.block_idx),
          rw wants at file,
          refl,
          λ j inside. ap (λ x. (s.out.db.block x).bytes j) i.writing ∙ out.contents.0 j inside,
        ),
      )

  -- A round of the GPU thread moves the first entry of the input buffer behind the last of the output
  -- buffer.
  pub Holds-gpu :
      (s : System hp) {g o : ℕ} {inq outq : List (ℕ → ℕ)} (fuel : ℕ) {t : GpuState hp}
      → Holds c sem s g o inq outq
      → gpu_round c fuel (record (s.gpu) { db_in = s.pkt.db; db_out = s.out.db }) ≡ ok t
      → (bytes : ℕ → ℕ) × (rest : List (ℕ → ℕ)) × (inq ≡ bytes ∷ rest)
        × Holds c sem
            (record s {
              pkt = record (s.pkt) { db = t.db_in };
              gpu = t;
              out = record (s.out) { db = t.db_out };
            })
            (suc g)
            o
            rest
            (outq ++ (bytes ∷ []))
  Holds-gpu s {g} {o} {inq} {outq} fuel {t} i e =
      let s1 = record (s.gpu) { db_in = s.pkt.db; db_out = s.out.db } in
      let (next_in, next_out, same_in, size_in, size_out, passes, same_out) =
        gpu_round-passes c fuel s1 e in
      let (was_filled, was_free, freed, filled, zero, chan) =
        gpu_round-semaphores sem c fuel s1 i.first_mcount e in
      let (bytes, rest, front) =
        IsFilled-some inq (omega (arith, three)) i.incoming.flags (rw i.taking at was_filled) in
      let inc : Incoming c sem s.pkt i.window g (bytes ∷ rest) =
        subst (λ q. Incoming c sem s.pkt i.window g q) front i.incoming in
      (
        bytes,
        rest,
        front,
        record {
          window = i.window;
          incoming =
              Incoming-taken sem s.pkt t.db_in inc same_in size_in (λ j. rw i.taking at freed j);
          outgoing =
              Outgoing-push sem bytes one i.outgoing (rw i.giving at was_free)
                (λ j inside.
                  ap (λ x. (t.db_out.block x).bytes j) (sym i.giving)
                  ∙ ap (λ b. b.bytes j) passes
                  ∙ whole s.gpu.num_coarse_chan (s.pkt.db.block s.gpu.curblock_in)
                      (s.out.db.block s.gpu.curblock_out) i.some_chan j inside
                  ∙ ap (λ x. (s.pkt.db.block x).bytes j) i.taking
                  ∙ ap (λ (b : ℕ → ℕ). b j) inc.contents.0)
                (λ j ne. same_out j (λ at. ne (at ∙ i.giving))) size_out
                (λ j. rw i.giving at filled j);
          taking =
              next_in
              ∙ ap (λ n. (s.gpu.curblock_in + 1) % n) i.incoming.size
              ∙ next_place c.n_input_blocks s.gpu.curblock_in g i.taking
              ∙ ap (λ x. x % c.n_input_blocks) (omega arith);
          giving =
              next_out
              ∙ ap (λ n. (s.gpu.curblock_out + 1) % n) i.outgoing.size
              ∙ next_place c.n_output_blocks s.gpu.curblock_out (o + length outq) i.giving
              ∙ ap (λ x. x % c.n_output_blocks) (omega (arith, length-snoc outq bytes));
          first_mcount = zero;
          some_chan = λ none. i.some_chan (sym chan ∙ none);
          writing = i.writing;
        },
      )

  -- A packet puts the data of the block that is handed over behind the last entry of the input buffer, or
  -- leaves the queue as it is.
  pub Holds-packet :
      (s : System hp) {g o : ℕ} {inq outq : List (ℕ → ℕ)} (now : ℕ × ℕ) (f : Frame)
      {t : PktState hp} {r : ℕ}
      → Holds c sem s g o inq outq
      → IsFrame f
      → CanAcquire c sem s.pkt (leaves c s.pkt f)
      → process_packet c now f s.pkt ≡ ok (t, r)
      → Holds c sem
          (record s { pkt = t })
          g
          o
          (inq ++ listed (data_of c s.pkt (leaves c s.pkt f)))
          outq
  Holds-packet s {g} {o} {inq} {outq} now f {t} i b free e = by_leaving (leaves c s.pkt f) refl free
    where
      leaving : leaves c s.pkt f ≡ hands_over (shape c) (get_header c f).mcnt i.window
      leaving =
          ap (hands_over (shape c) (get_header c f).mcnt)
            (window_of-Follows usable three k sem s.pkt i.window i.incoming.follows)

      with_incoming :
          (w : Window) (q : List (ℕ → ℕ))
          → Incoming c sem t w g q
          → Holds c sem (record s { pkt = t }) g o q outq
      with_incoming w q inc = record {
        window = w;
        incoming = inc;
        outgoing = i.outgoing;
        taking = i.taking;
        giving = i.giving;
        first_mcount = i.first_mcount;
        some_chan = i.some_chan;
        writing = i.writing;
      }

      by_leaving :
          (l : Option ℕ)
          → leaves c s.pkt f ≡ l
          → CanAcquire c sem s.pkt l
          → Holds c sem (record s { pkt = t }) g o (inq ++ listed (data_of c s.pkt l)) outq
      by_leaving none at room =
          with_incoming (move (shape c) (get_header c f).mcnt i.window) (inq ++ []) (
            subst (λ q. Incoming c sem t (move (shape c) (get_header c f).mcnt i.window) g q)
              (sym (append-nil inq))
              (Incoming-kept usable three k sem s.pkt now f b i.incoming e (sym leaving ∙ at)))
      by_leaving (some seq) at room =
          with_incoming (move (shape c) (get_header c f).mcnt i.window)
            (inq ++ listed (data_of c s.pkt (some seq)))
            (Incoming-handed usable three k sem s.pkt now f b i.incoming e (sym leaving ∙ at) room)
