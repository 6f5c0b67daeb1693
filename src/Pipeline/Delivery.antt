-- ===== src/Pipeline/Delivery.antt =====
-- What is handed over is written, in order: from the start of the three threads through any run of them.
use serendip6_reobs.Base.{
  ℕ, ◌≤◌, ◌≡◌, ◌≢◌, ok, refl, sym, ap, ◌∙◌, arith, false, List, [], ◌++◌, length, length-append,
  ok-injective,
}
use serendip6_reobs.Base.Arith.{mod_small}
use mathlib.Core.List.{Forall₂}
use serendip6_reobs.Config.{Config, fast_of}
use serendip6_reobs.Databuf.{Hashpipe, InputDatabuf}
use serendip6_reobs.Databuf.Input.{s6_input_databuf_busywait_free}
use serendip6_reobs.Pktsock.{Status}
use serendip6_reobs.Pktsock.Trace.{prepared, Follows}
use serendip6_reobs.Pktsock.Ring.{IsUsable, CallsSucceed}
use serendip6_reobs.Pktsock.Run.{start_blocks}
use serendip6_reobs.Pktsock.Start.{
  at_start, at_zero, started_blocks, start_blocks_lem, started-Follows,
}
use serendip6_reobs.Gpu.Passing.{pass_block-fast}
use serendip6_reobs.Pipeline.Ring.{IsFilled-none}
use serendip6_reobs.Pipeline.Semaphores.{Semaphores}
use serendip6_reobs.Pipeline.System.{System, Event, handed_over, outcomes, Run}
use serendip6_reobs.Pipeline.Delivered.{Delivered, Step-Delivered}
use serendip6_reobs.Pipeline.Invariant.{IsPipeline, Holds, IsOutcome}

-- The state of the three threads when each comes to its main loop, with both buffers empty.
pub record IsStart (c : Config) {hp : Hashpipe} (sem : Semaphores hp) (s : System hp) : Type 0 where
  pub status : Status
  pub buffer : InputDatabuf hp
  pub started : InputDatabuf hp
  pub starts : start_blocks c buffer ≡ ok started
  pub pkt : s.pkt ≡ at_start status started
  pub all_free : (i : ℕ) → sem.filled buffer.header i ≡ false
  pub size : buffer.n_block ≡ c.n_input_blocks
  pub taking : s.gpu.curblock_in ≡ 0
  pub giving : s.gpu.curblock_out ≡ 0
  pub first_mcount : s.gpu.last_mcount ≡ 0
  pub some_chan : s.gpu.num_coarse_chan ≢ 0
  pub writing : s.out.block_idx ≡ 0
  pub out_all_free : (i : ℕ) → sem.filled s.out.db.header i ≡ false
  pub out_size : s.out.db.n_block ≡ c.n_output_blocks

module _ {c : Config} (p : IsPipeline c) {hp : Hashpipe} (k : CallsSucceed hp)
    (sem : Semaphores hp) where
  open p use {usable, three, one}

  -- The two blocks that the packet thread acquires at its start were free and are not filled by it.
  started-free :
      (db : InputDatabuf hp)
      → ((i : ℕ) → sem.filled db.header i ≡ false)
      → (j : ℕ) → sem.filled (started_blocks usable k db).header j ≡ false
  unfolding s6_input_databuf_busywait_free
  started-free db free j =
      sem.acquire (hp.busywait_free db.header 0).1 1 j (sem.acquire db.header 0 1 (free 0) ∙ free 1)
      ∙ sem.acquire db.header 0 j (free 0)
      ∙ free j

  started-size : (db : InputDatabuf hp) → (started_blocks usable k db).n_block ≡ db.n_block
  unfolding s6_input_databuf_busywait_free
  started-size db = refl

  started-pkt :
      (s : System hp) (i : IsStart c sem s)
      → s.pkt ≡ at_start i.status (started_blocks usable k i.buffer)
  started-pkt s i =
      i.pkt
      ∙ ap (at_start i.status) (ok-injective (sym i.starts ∙ start_blocks_lem usable k i.buffer))

  pub start-Follows : (s : System hp) → IsStart c sem s → Follows c (prepared c s.pkt) at_zero
  start-Follows s i = rw (started-pkt s i) (started-Follows usable k i.status i.buffer)

  start-Holds : (s : System hp) → IsStart c sem s → Holds c sem s 0 0 [] []
  start-Holds s i =
      let same = started-pkt s i in
      record {
        window = at_zero;
        incoming = rw same (record {
          follows = started-Follows usable k i.status i.buffer;
          place = refl;
          held = omega (arith, three);
          flags = IsFilled-none (started-free i.buffer i.all_free);
          contents = tt;
          size = started-size i.buffer ∙ i.size;
        });
        outgoing = record {
          flags = IsFilled-none i.out_all_free;
          contents = tt;
          size = i.out_size;
        };
        taking = i.taking ∙ sym (mod_small 0 c.n_input_blocks (omega (arith, three)));
        giving = i.giving ∙ sym (mod_small 0 c.n_output_blocks one);
        first_mcount = i.first_mcount;
        some_chan = i.some_chan;
        writing = i.writing ∙ sym (mod_small 0 c.n_output_blocks one);
      }

  pub Run-Delivered :
      {s t : System hp} {es : List Event}
      → IsStart c sem s
      → Run c sem s es t
      → (inq : List (ℕ → ℕ)) × (outq : List (ℕ → ℕ)) × Delivered c sem t es inq outq
  Run-Delivered {s} i Run.here = (
    [],
    [],
    record {
      g = 0;
      o = 0;
      done = [];
      holds = start-Holds s i;
      history = refl;
      outcome = Forall₂.nil;
    },
  )
  Run-Delivered i (Run.next run step) =
      let (_, _, d) = Run-Delivered i run in Step-Delivered p k sem d step

pub fast-IsPipeline : (n : ℕ) → IsUsable (fast_of n) → IsPipeline (fast_of n)
fast-IsPipeline n u = record {
  usable = u;
  three = omega arith;
  one = omega arith;
  whole = λ chan i o some_chan j inside.
      (let (_, _, _, _, _, _, _, _, bytes) = pass_block-fast n chan i o some_chan in
        bytes j inside);
}

-- For SOURCE_FAST, in a usable build, while the calls on semaphores do what hashpipe documents: in every
-- run of the three threads from their start, on any frames of bytes and in any order of their steps, the
-- rounds of the output thread are, in order, about the blocks that the packet thread has handed over, none
-- left out and none twice. Each round that is to write has left a file with the data of its block, byte
-- for byte; and at most five blocks that were handed over have not been come to yet.
pub handed_over-outcomes :
    (n : ℕ) {hp : Hashpipe} {s t : System hp} {es : List Event}
    → IsUsable (fast_of n)
    → CallsSucceed hp
    → (sem : Semaphores hp) → IsStart (fast_of n) sem s
    → Run (fast_of n) sem s es t
    → (done waiting : List (ℕ → ℕ)) × (handed_over es ≡ done ++ waiting)
      × Forall₂ (IsOutcome (fast_of n)) (outcomes es) done
      × (length waiting ≤ 5)
handed_over-outcomes n u k sem start run =
    let (inq, outq, d) = Run-Delivered (fast-IsPipeline n u) k sem start run in
    (
      d.done,
      outq ++ inq,
      d.history,
      d.outcome,
      omega (arith, length-append outq inq, d.holds.incoming.held, d.holds.outgoing.flags.fits),
    )
