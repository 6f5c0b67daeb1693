-- ===== src/Tests/Threads.antt =====
-- The theorems on the other threads, on concrete blocks.
use serendip6_reobs.Base.{
  ℕ, ◌-◌, ◌*◌, ◌%◌, ◌<◌, ◌≡◌, ◌≢◌, some, none, arith, refl, ltb, if◌then◌else◌, true, false, ok,
  err, Fault, [],
}
use serendip6_reobs.Config.{n_data_bytes_per_block}
use serendip6_reobs.Databuf.{Rv, InputDatabuf, OutputDatabuf}
use serendip6_reobs.Databuf.Wait.{wait_loop, now, later, wait_loop-Succeeds}
use serendip6_reobs.Databuf.Input.{
  s6_input_databuf_set_free, s6_input_databuf_wait_free, s6_input_databuf_set_filled,
}
use serendip6_reobs.Databuf.Output.{
  s6_output_databuf_wait_free, s6_output_databuf_set_filled, s6_output_databuf_wait_filled,
  s6_output_databuf_set_free,
}
use serendip6_reobs.Gpu.{GpuState, gpu_round, await_output}
use serendip6_reobs.Gpu.Passing.{gpu_round-passes_fast, gpu_round-returns}
use serendip6_reobs.Output.{
  OutputState, Keys, zero_output_block, output_round, hgeti4, observe, change_files, file_change,
  write_block, write_to_file, release_block, check_redis, check_idle, same_text,
}
use serendip6_reobs.Output.Passing.{
  file_of, output_round-writes, output_round-never_idle, output_round-returns, output_round-no_file,
}
use serendip6_reobs.FakeNet.{FakeState, fake_round, fake_round-fills}
use serendip6_reobs.Tests.{calm, small, zero_header, zero_buffer, zero_output}

-- A call that times out until its count of calls is 0.
abbrev patient : ℕ → Rv × ℕ
patient k = if ltb 0 k then (Rv.hashpipe_timeout, k - 1) else (Rv.hashpipe_ok, 77)

wait_loop-Succeeds_example : wait_loop 3 patient 2 ≡ ok 77
wait_loop-Succeeds_example =
    wait_loop-Succeeds patient 3 (later refl (later refl (now refl))) (omega arith)

-- An input buffer whose blocks hold the index of each byte.
abbrev numbered : InputDatabuf calm
numbered = record {
  header = tt;
  n_block = 4;
  block =
      λ i. record { header = record zero_header { mcnt = 4 * i; sid = 5 }; bytes = λ j. j % 256 };
}

abbrev passing : GpuState calm
passing = record {
  curblock_in = 3;
  curblock_out = 1;
  last_mcount = 0;
  num_coarse_chan = 1;
  gpu_block_count = 0;
  db_in = numbered;
  db_out = zero_output;
  gpublkin = 0;
  gpubkout = 0;
  gpumcnt = 0;
  numhits = 0;
}

-- The state after a round.
abbrev passed : GpuState calm
passed = elim (gpu_round small 1 passing) [ ok t ↦ t | err e ↦ passing ]

gpu_round-passes_fast_example :
    let i = numbered.block 3 in
    let p = passed.db_out.block 1 in
    (passed.curblock_in ≡ 0)
    × (passed.curblock_out ≡ 2)
    × (passed.db_in.block ≡ numbered.block)
    × ((j : ℕ) → j ≢ 1 → passed.db_out.block j ≡ zero_output_block)
    × (passed.gpumcnt ≡ 12)
    × (p.header.mcnt ≡ 12)
    × (p.header.sid ≡ 5)
    × (p.header.coarse_chan_id ≡ i.header.coarse_chan_id)
    × (p.header.num_coarse_chan ≡ i.header.num_coarse_chan)
    × (p.header.time_sec ≡ i.header.time_sec)
    × (p.header.time_nsec ≡ i.header.time_nsec)
    × (p.header.missed_pkts 0 ≡ 0)
    × ((j : ℕ) → p.header.nhits j ≡ 0)
    × ((j : ℕ) → j < n_data_bytes_per_block small → p.bytes j ≡ j % 256)
unfolding gpu_round await_output wait_loop s6_output_databuf_wait_free s6_output_databuf_set_filled
    s6_input_databuf_set_free
gpu_round-passes_fast_example = gpu_round-passes_fast 16384 1 passing (omega arith) refl

gpu_round-returns_example : (t : GpuState calm) × (gpu_round small 1 passing ≡ ok t)
unfolding s6_output_databuf_wait_free
gpu_round-returns_example =
    gpu_round-returns small 1 passing (now refl) (omega arith) (now refl) (omega arith)

-- The output thread before its first block, the buffer apart.
abbrev writing : OutputDatabuf calm → ℕ → OutputState calm
writing db i = record {
  block_idx = i;
  db = db;
  run_always = 0;
  prior_run_always = 0;
  idle = 0;
  idle_flag = 0;
  testmode = 1;
  num_coarse_chan = 0;
  time = 0;
  receiver = [];
  dumpvolt = 0;
  prior_receiver = [];
  beam = 0;
  pol = 0;
  new_file = false;
  file_num = 0;
  file = none;
  outblkin = 0;
  idle_key = 0;
  dumpvolt_key = 0;
  filenum = 0;
}

abbrev quiet_keys : Keys
quiet_keys = record { run_always = none; idle = some 1; testmode = none }

abbrev wrote : OutputState calm
wrote = elim (output_round small 1 quiet_keys true (writing zero_output 2)) [
  | ok t ↦ t
  | err e ↦ writing zero_output 2
]

output_round-writes_example :
    (wrote.block_idx ≡ 0)
    × (wrote.db.n_block ≡ 3)
    × (wrote.db.block 2 ≡ zero_output_block)
    × ((j : ℕ) → j ≢ 2 → wrote.db.block j ≡ zero_output_block)
    × (wrote.file ≡ some (file_of small zero_output_block))
unfolding output_round wait_loop s6_output_databuf_wait_filled s6_output_databuf_set_free observe
    change_files file_change write_block write_to_file release_block hgeti4 check_redis check_idle
    same_text
output_round-writes_example =
    output_round-writes small 1 quiet_keys true (writing zero_output 2) refl

output_round-never_idle_example : (wrote.idle_flag ≡ 0) × (wrote.idle_key ≡ 0)
unfolding output_round wait_loop s6_output_databuf_wait_filled s6_output_databuf_set_free observe
    change_files file_change write_block write_to_file release_block hgeti4 check_redis check_idle
    same_text
output_round-never_idle_example =
    output_round-never_idle small 1 quiet_keys true (writing zero_output 2) refl refl

output_round-returns_example :
    (t : OutputState calm) × (output_round small 1 quiet_keys true (writing zero_output 2) ≡ ok t)
unfolding s6_output_databuf_wait_filled
output_round-returns_example =
    output_round-returns small 1 quiet_keys (writing zero_output 2) (now refl) (omega arith)

output_round-no_file_example :
    output_round small 1 quiet_keys false (writing zero_output 2) ≡ err Fault.thread_exit
unfolding s6_output_databuf_wait_filled hgeti4
output_round-no_file_example =
    output_round-no_file small 1 quiet_keys (writing zero_output 2) (now refl) (omega arith) refl

abbrev faking : FakeState calm
faking = record { mcnt = 9; block_idx = 3; db = zero_buffer }

abbrev faked : FakeState calm
faked = elim (fake_round small 1 (λ t. t % 256) faking) [ ok t ↦ t | err e ↦ faking ]

fake_round-fills_example :
    (faked.block_idx ≡ 0)
    × (faked.mcnt ≡ 10)
    × ((i j : ℕ)
        → i < 4
        → j < n_data_bytes_per_block small
        → (faked.db.block i).bytes j ≡ (if ltb j 16384 then j % 256 else 0))
unfolding fake_round wait_loop s6_input_databuf_wait_free s6_input_databuf_set_filled
fake_round-fills_example = fake_round-fills small 1 (λ t. t % 256) faking refl
