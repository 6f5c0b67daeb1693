-- ===== src/Tests/Running.antt =====
-- The theorems on the three threads together, on a run in which one block goes all the way.
use serendip6_reobs.Base.{
  ℕ, ◌≤◌, ◌≡◌, Bool, true, false, some, none, arith, refl, ok, err, List, [], ◌∷◌, ◌++◌, length,
  update, if◌then◌else◌,
}
use mathlib.Core.List.{Forall₂}
use serendip6_reobs.Databuf.{Rv, Hashpipe, InputDatabuf}
use serendip6_reobs.Databuf.Wait.{wait_loop}
use serendip6_reobs.Databuf.Input.{
  s6_input_databuf_set_free, s6_input_databuf_set_filled, s6_input_databuf_busywait_free,
}
use serendip6_reobs.Databuf.Output.{
  s6_output_databuf_wait_free, s6_output_databuf_set_filled, s6_output_databuf_wait_filled,
  s6_output_databuf_set_free,
}
use serendip6_reobs.Packets.{memcpy, no_block}
use serendip6_reobs.Pktsock.Assembly.{IsWhole}
use serendip6_reobs.Pipeline.Parcels.{Parcel, parcels, IsFileOf}
use serendip6_reobs.Pipeline.Payload.{parcels-outcomes}
use serendip6_reobs.Window.{hands_over}
use serendip6_reobs.Pktsock.{Frame, PktState}
use serendip6_reobs.Pktsock.Header.{get_header, decode, word_le, word_be}
use serendip6_reobs.Pktsock.Block.{
  initialize_block_info, block_for_mcnt, initialize_block, calc_block_indexes, set_block_filled,
  count_missed,
}
use serendip6_reobs.Pktsock.Process.{
  take_packet, dispatch, process_packet, store_packet, place, finish_block,
}
use serendip6_reobs.Pktsock.Ring.{CallsSucceed}
use serendip6_reobs.Pktsock.Trace.{IsFrame}
use serendip6_reobs.Pktsock.Start.{at_start, started_blocks, start_blocks_lem}
use serendip6_reobs.Gpu.{GpuState, gpu_round, await_output}
use serendip6_reobs.Output.{
  Keys, zero_output_block, output_round, hgeti4, observe, change_files, file_change, write_block,
  write_to_file, release_block, check_redis, check_idle, same_text,
}
use serendip6_reobs.Pipeline.Semaphores.{Semaphores}
use serendip6_reobs.Pipeline.System.{
  System, Event, frames, handed_over, outcomes, leaves, CanAcquire, Step, Run,
}
use serendip6_reobs.Pipeline.Invariant.{IsOutcome}
use serendip6_reobs.Pipeline.Delivery.{IsStart, handed_over-outcomes}
use serendip6_reobs.Pipeline.Progress.{Run-can_drain}
use serendip6_reobs.Tests.{small, small_usable, zero_block, no_keys, frame_of, frame_of-IsFrame}

-- One thread at a time: a flag for each block says whether it is filled, and a wait that would be in vain
-- times out.
abbrev flagged : Hashpipe
flagged = record {
  Header = ℕ → Bool;
  create = λ i d h b n. some (λ j. false);
  attach = λ i d. some (λ j. false);
  detach = λ h. Rv.hashpipe_ok;
  clear = λ h j. false;
  block_status = λ h i. if h i then 1 else 0;
  total_status = λ h. 0;
  wait_free = λ h i. (if h i then Rv.hashpipe_timeout else Rv.hashpipe_ok, h);
  busywait_free = λ h i. (Rv.hashpipe_ok, h);
  wait_filled = λ h i. (if h i then Rv.hashpipe_ok else Rv.hashpipe_timeout, h);
  busywait_filled = λ h i. (Rv.hashpipe_ok, h);
  set_free = λ h i. (Rv.hashpipe_ok, update h i false);
  set_filled = λ h i. (Rv.hashpipe_ok, update h i true);
}

flagged_calls : CallsSucceed flagged
flagged_calls = record { filled = λ h i. refl; freed = λ h i. refl }

filled_seen :
    (b : Bool) → (if b then Rv.hashpipe_ok else Rv.hashpipe_timeout) ≡ Rv.hashpipe_ok → b ≡ true
filled_seen true e = refl
filled_seen false e = cc

free_seen :
    (b : Bool) → (if b then Rv.hashpipe_timeout else Rv.hashpipe_ok) ≡ Rv.hashpipe_ok → b ≡ false
free_seen true e = cc
free_seen false e = refl

sees_filled :
    (b : Bool) → b ≡ true → (if b then Rv.hashpipe_ok else Rv.hashpipe_timeout) ≡ Rv.hashpipe_ok
sees_filled b e = rw e refl

sees_free :
    (b : Bool) → b ≡ false → (if b then Rv.hashpipe_timeout else Rv.hashpipe_ok) ≡ Rv.hashpipe_ok
sees_free b e = rw e refl

abbrev flagged_semaphores : Semaphores flagged
flagged_semaphores = record {
  filled = λ h. h;
  fill = λ h i j. refl;
  free = λ h i j. refl;
  acquire = λ h i j e. refl;
  see_filled = λ h i j. refl;
  see_free = λ h i j. refl;
  filled_seen = λ h i e. filled_seen (h i) e;
  free_seen = λ h i e. free_seen (h i) e;
  sees_filled = λ h i e. sees_filled (h i) e;
  sees_free = λ h i e. sees_free (h i) e;
}

abbrev empty_input : InputDatabuf flagged
empty_input = record { header = λ j. false; n_block = 4; block = λ i. zero_block }

abbrev first_state : System flagged
first_state = record {
  pkt = at_start no_keys (started_blocks small_usable flagged_calls empty_input);
  gpu = record {
    curblock_in = 0;
    curblock_out = 0;
    last_mcount = 0;
    num_coarse_chan = 1;
    gpu_block_count = 0;
    db_in = empty_input;
    db_out = record { header = λ j. false; n_block = 3; block = λ i. zero_output_block };
    gpublkin = 0;
    gpubkout = 0;
    gpumcnt = 0;
    numhits = 0;
  };
  out = record {
    block_idx = 0;
    db = record { header = λ j. false; n_block = 3; block = λ i. zero_output_block };
    run_always = 0;
    prior_run_always = 0;
    idle = 0;
    idle_flag = 0;
    testmode = 1;
    num_coarse_chan = 0;
    time = 0;
    receiver = [];
    dumpvolt = 0;
    prior_receiver = [];
    beam = 0;
    pol = 0;
    new_file = false;
    file_num = 0;
    file = none;
    outblkin = 0;
    idle_key = 0;
    dumpvolt_key = 0;
    filenum = 0;
  };
}

first_state-IsStart : IsStart small flagged_semaphores first_state
first_state-IsStart = record {
  status = no_keys;
  buffer = empty_input;
  started = started_blocks small_usable flagged_calls empty_input;
  starts = start_blocks_lem small_usable flagged_calls empty_input;
  pkt = refl;
  all_free = λ i. refl;
  size = refl;
  taking = refl;
  giving = refl;
  first_mcount = refl;
  some_chan = omega arith;
  writing = refl;
  out_all_free = λ i. refl;
  out_size = refl;
}

-- A packet for block 0, then one for the second half of block 1, at which block 0 is handed over.
abbrev one_taken : System flagged
one_taken = record first_state {
  pkt = elim (process_packet small (0, 0) (frame_of 2 1) first_state.pkt) [
    | ok p ↦ p.0
    | err e ↦ first_state.pkt
  ];
}

abbrev second_state : System flagged
second_state = record one_taken {
  pkt = elim (process_packet small (0, 0) (frame_of 6 1) one_taken.pkt) [
    | ok p ↦ p.0
    | err e ↦ one_taken.pkt
  ];
}

abbrev packet_events : List Event
packet_events =
    Event.packet (frame_of 6 1) (some (one_taken.pkt.db.block 0).bytes)
    ∷ Event.packet (frame_of 2 1) none
    ∷ []

hands_over_block : Run small flagged_semaphores first_state packet_events second_state
unfolding process_packet dispatch block_for_mcnt initialize_block_info get_header decode word_be
    word_le take_packet calc_block_indexes store_packet place finish_block set_block_filled
    count_missed initialize_block s6_input_databuf_set_filled s6_input_databuf_busywait_free memcpy
    hands_over
hands_over_block =
    Run.next
      (Run.next Run.here (
        Step.packet (0, 0) (frame_of 2 1) one_taken.pkt no_block (frame_of-IsFrame 2 1) tt refl refl
          refl))
      (Step.packet (0, 0) (frame_of 6 1) second_state.pkt 0 (frame_of-IsFrame 6 1) refl refl refl
        refl)

-- The GPU thread passes it on.
abbrev seen : GpuState flagged
seen = record (second_state.gpu) { db_in = second_state.pkt.db; db_out = second_state.out.db }

abbrev passed_on : GpuState flagged
passed_on = elim (gpu_round small 1 seen) [ ok t ↦ t | err e ↦ seen ]

abbrev third_state : System flagged
third_state = record second_state {
  pkt = record (second_state.pkt) { db = passed_on.db_in };
  gpu = passed_on;
  out = record (second_state.out) { db = passed_on.db_out };
}

-- The output thread writes it.
abbrev silent : Keys
silent = record { run_always = none; idle = none; testmode = none }

abbrev last_state : System flagged
last_state = record third_state {
  out = elim (output_round small 1 silent true third_state.out) [
    | ok t ↦ t
    | err e ↦ third_state.out
  ];
}

abbrev all_events : List Event
all_events =
    Event.output (record { wants = true; file = last_state.out.file })
    ∷ Event.pass_on
    ∷ packet_events

full-Run : Run small flagged_semaphores first_state all_events last_state
unfolding process_packet dispatch block_for_mcnt initialize_block_info get_header decode word_be
    word_le take_packet calc_block_indexes store_packet place finish_block set_block_filled
    count_missed initialize_block s6_input_databuf_set_filled s6_input_databuf_busywait_free memcpy
    gpu_round await_output s6_output_databuf_wait_free s6_output_databuf_set_filled
    s6_input_databuf_set_free output_round wait_loop s6_output_databuf_wait_filled
    s6_output_databuf_set_free observe change_files file_change write_block write_to_file
    release_block hgeti4 check_redis check_idle same_text
full-Run =
    Run.next (Run.next hands_over_block (Step.gpu 1 passed_on refl refl refl))
      (Step.output 1 silent true last_state.out refl refl refl)

handed_over-outcomes_example :
    (done : List (ℕ → ℕ)) × (waiting : List (ℕ → ℕ)) × (handed_over all_events ≡ done ++ waiting)
    × Forall₂ (IsOutcome small) (outcomes all_events) done
    × (length waiting ≤ 5)
handed_over-outcomes_example =
    handed_over-outcomes 16384 small_usable flagged_calls flagged_semaphores first_state-IsStart
      full-Run

Run-can_drain_example :
    (later : List Event) × (t : System flagged) × Run small flagged_semaphores first_state later t
    × ((more : List Event) × (later ≡ more ++ packet_events))
    × (frames later ≡ frame_of 6 1 ∷ frame_of 2 1 ∷ [])
    × (handed_over later ≡ (one_taken.pkt.db.block 0).bytes ∷ [])
    × Forall₂ (IsOutcome small) (outcomes later) ((one_taken.pkt.db.block 0).bytes ∷ [])
    × ((now : ℕ × ℕ) (f : Frame)
        → IsFrame f
        → CanAcquire small flagged_semaphores t.pkt (leaves small t.pkt f)
          × ((p : PktState flagged) × (netmcnt : ℕ) × (process_packet small now f t.pkt
                ≡ ok (p, netmcnt))))
Run-can_drain_example =
    Run-can_drain 16384 small_usable flagged_calls flagged_semaphores silent first_state-IsStart
      hands_over_block

frame_of-IsWhole : (mcnt beam : ℕ) → IsWhole (frame_of mcnt beam)
frame_of-IsWhole mcnt beam = record { frame = frame_of-IsFrame mcnt beam; size = refl }

parcels-outcomes_example :
    (done : List Parcel) × (waiting : List Parcel) × (parcels small
        (frame_of 6 1 ∷ frame_of 2 1 ∷ [])
      ≡ done ++ waiting)
    × Forall₂ (IsFileOf 16384) (outcomes all_events) done
    × (length waiting ≤ 5)
parcels-outcomes_example =
    parcels-outcomes 16384 small_usable flagged_calls flagged_semaphores first_state-IsStart
      (frame_of-IsWhole 6 1, (frame_of-IsWhole 2 1, tt)) full-Run
