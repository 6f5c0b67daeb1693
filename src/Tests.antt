-- ===== src/Tests.antt =====
-- Concrete values on which the theorems are run: a hashpipe whose calls all succeed, a build of
-- SOURCE_FAST with four packets in a block, buffers of zeros, and a few frames.
pub mod Packets
pub mod Windows
pub mod Udp
pub mod Filter
pub mod Threads
pub mod Running
use serendip6_reobs.Base.{
  ℕ, ◌+◌, ◌*◌, ◌/◌, ◌%◌, ◌<◌, ◌≤◌, ◌≡◌, Option, some, none, arith, refl, ltb, if◌then◌else◌,
}
use serendip6_reobs.Config.{Config, fast_of}
use serendip6_reobs.Databuf.{
  Rv, Hashpipe, InputDatabuf, InputBlock, OutputDatabuf, OutputBlock, InputHeader,
}
use serendip6_reobs.Pktsock.{Frame, Status}
use serendip6_reobs.Pktsock.Ring.{IsUsable, CallsSucceed}
use serendip6_reobs.Pktsock.Layout.{fast_word, fast_frame}
use serendip6_reobs.Pktsock.Trace.{IsFrame}
use serendip6_reobs.Pktsock.Bounds.{Fits}
use serendip6_reobs.Output.{zero_output_block}

-- The semaphores are not modelled here: a call has no effect and succeeds.
abbrev pub calm : Hashpipe
calm = record {
  Header = Unit;
  create = λ i d h b n. some tt;
  attach = λ i d. some tt;
  detach = λ h. Rv.hashpipe_ok;
  clear = λ h. h;
  block_status = λ h i. 0;
  total_status = λ h. 0;
  wait_free = λ h i. (Rv.hashpipe_ok, h);
  busywait_free = λ h i. (Rv.hashpipe_ok, h);
  wait_filled = λ h i. (Rv.hashpipe_ok, h);
  busywait_filled = λ h i. (Rv.hashpipe_ok, h);
  set_free = λ h i. (Rv.hashpipe_ok, h);
  set_filled = λ h i. (Rv.hashpipe_ok, h);
}

pub calm_calls : CallsSucceed calm
calm_calls = record { filled = λ h i. refl; freed = λ h i. refl }

abbrev pub small : Config
small = fast_of 16384

pub small_usable : IsUsable small
small_usable = record { mcnts = omega arith; blocks = omega arith; small = omega arith }

abbrev pub zero_header : InputHeader
zero_header = record {
  mcnt = 0;
  coarse_chan_id = 0;
  num_coarse_chan = 0;
  sid = 0;
  time_sec = 0;
  time_nsec = 0;
  missed_pkts = λ k. 0;
}

abbrev pub zero_block : InputBlock
zero_block = record { header = zero_header; bytes = λ j. 0 }

abbrev pub zero_buffer : InputDatabuf calm
zero_buffer = record { header = tt; n_block = 4; block = λ i. zero_block }

abbrev pub zero_output : OutputDatabuf calm
zero_output = record { header = tt; n_block = 3; block = λ i. zero_output_block }

abbrev pub no_keys : Status
no_keys = record { netbkout = none; missedbm = none; missedpk = none; schan = none; nchan = none }

-- A frame of 4096 bytes of payload from a beam.
abbrev pub frame_of : (mcnt beam : ℕ) → Frame
frame_of mcnt beam = fast_frame 4112 (fast_word mcnt 0 beam 0) (λ i. i % 256)

pub frame_of-IsFrame : (mcnt beam : ℕ) → IsFrame (frame_of mcnt beam)
frame_of-IsFrame mcnt beam = record { byte = λ i. ground arith }

pub frame_of-Fits : (mcnt beam : ℕ) → Fits (frame_of mcnt beam)
frame_of-Fits mcnt beam = record {
  frame = frame_of-IsFrame mcnt beam;
  lower = omega arith;
  upper = omega arith;
}
