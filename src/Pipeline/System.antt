-- ===== src/Pipeline/System.antt =====
-- The three threads of an instance over the two buffers that they share. A step is one packet of the packet
-- thread, or one round of the GPU thread or of the output thread. A step is taken only if its waits are
-- not in vain: a thread that waits does so by taking no step, and the others go on.
use serendip6_reobs.Base.{
  ℕ, ◌+◌, ◌%◌, ◌≡◌, ◌/◌, Bool, false, Option, none, some, List, [], ◌∷◌, ◌++◌, ok,
}
use serendip6_reobs.Config.{Config}
use serendip6_reobs.Databuf.{Hashpipe}
use serendip6_reobs.Window.{Window, hands_over}
use serendip6_reobs.Pktsock.{Frame, PktState, nm}
use serendip6_reobs.Pktsock.Header.{get_header}
use serendip6_reobs.Pktsock.Process.{process_packet}
use serendip6_reobs.Pktsock.Trace.{IsFrame, prepared, shape}
use serendip6_reobs.Gpu.{GpuState, gpu_round}
use serendip6_reobs.Output.{OutputState, Keys, File, output_round}
use serendip6_reobs.Output.Passing.{wants_file}
use serendip6_reobs.Pipeline.Semaphores.{Semaphores}

-- The input buffer is that of `pkt`, the output buffer that of `out`; the GPU thread has its copies of
-- both from there when it takes a step.
pub record System (hp : Hashpipe) : Type 0 where
  pub pkt : PktState hp
  pub gpu : GpuState hp
  pub out : OutputState hp

-- What a round of the output thread is meant to do, and the file that it leaves.
pub record Outcome : Type 0 where
  pub wants : Bool
  pub file : Option File

-- What can be seen of a step: the frame, and the data of the block that the packet thread then hands over, if it does; or the
-- outcome of a round of the output thread.
pub data Event : Type 0 where
  packet : (f : Frame) (handed : Option (ℕ → ℕ)) → Event
  pass_on : Event
  output : (o : Outcome) → Event

-- The data of the blocks that were handed over, in order. The last event comes first in the list.
abbrev pub handed_over : List Event → List (ℕ → ℕ)
handed_over [] = []
handed_over (Event.packet f (some bytes) ∷ es) = handed_over es ++ (bytes ∷ [])
handed_over (Event.packet f none ∷ es) = handed_over es
handed_over (Event.pass_on ∷ es) = handed_over es
handed_over (Event.output o ∷ es) = handed_over es

-- The frames that were taken. The last comes first.
abbrev pub frames : List Event → List Frame
frames [] = []
frames (Event.packet f handed ∷ es) = f ∷ frames es
frames (Event.pass_on ∷ es) = frames es
frames (Event.output o ∷ es) = frames es

-- The outcomes of the rounds of the output thread, in order.
abbrev pub outcomes : List Event → List Outcome
outcomes [] = []
outcomes (Event.output o ∷ es) = outcomes es ++ (o ∷ [])
outcomes (Event.packet f handed ∷ es) = outcomes es
outcomes (Event.pass_on ∷ es) = outcomes es

module _ (c : Config) {hp : Hashpipe} where
  -- The window that a state of the packet thread stands for.
  abbrev pub window_of : PktState hp → Window
  window_of s =
      let b = (prepared c s).binfo in
      record { seq = b.mcnt_start / nm c; strays = b.out_of_seq_cnt }

  -- The block that a packet has handed over.
  abbrev pub leaves : PktState hp → Frame → Option ℕ
  leaves s f = hands_over (shape c) (get_header c f).mcnt (window_of s)

  abbrev pub data_of : PktState hp → Option ℕ → Option (ℕ → ℕ)
  data_of s none = none
  data_of s (some seq) = some (s.db.block (seq % c.n_input_blocks)).bytes

  -- The block that is then waited for is free.
  abbrev pub CanAcquire : Semaphores hp → PktState hp → Option ℕ → Type 0
  CanAcquire sem s none = Unit
  CanAcquire sem s (some seq) = sem.filled s.db.header ((seq + 2) % c.n_input_blocks) ≡ false

  pub data Step (sem : Semaphores hp) (s : System hp) (e : Event) (t : System hp) : Type 0 where
    packet :
        (now : ℕ × ℕ) (f : Frame) (p : PktState hp) (netmcnt : ℕ)
        → IsFrame f
        → CanAcquire sem s.pkt (leaves s.pkt f)
        → process_packet c now f s.pkt ≡ ok (p, netmcnt)
        → e ≡ Event.packet f (data_of s.pkt (leaves s.pkt f))
        → t ≡ record s { pkt = p }
        → Step sem s e t
    gpu :
        (fuel : ℕ) (g : GpuState hp)
        → gpu_round c fuel (record (s.gpu) { db_in = s.pkt.db; db_out = s.out.db }) ≡ ok g
        → e ≡ Event.pass_on
        → t ≡ record s {
          pkt = record (s.pkt) { db = g.db_in };
          gpu = g;
          out = record (s.out) { db = g.db_out };
        }
        → Step sem s e t
    output :
        (fuel : ℕ) (keys : Keys) (opens : Bool) (o : OutputState hp)
        → output_round c fuel keys opens s.out ≡ ok o
        → e ≡ Event.output (record { wants = wants_file keys s.out; file = o.file })
        → t ≡ record s { out = o }
        → Step sem s e t

  -- Any number of steps.
  pub data Run (sem : Semaphores hp) (s : System hp) : List Event → System hp → Type 0 where
    here : Run sem s [] s
    next :
        {es : List Event} {e : Event} {t u : System hp}
        → Run sem s es t
        → Step sem t e u
        → Run sem s (e ∷ es) u
