-- ===== src/Output.antt =====
-- src/s6_output_thread.cpp: takes the blocks of the output buffer in order, writes the data of each to
-- the file test.dat, zeroes it and frees it. The build is that of SOURCE_FAST: the other two read the
-- state of the telescope from a redis server. Left out are the keys of the status buffer that hold
-- times or constants, and the result of fwrite, which the source does not look at.

pub mod Passing
use serendip6_reobs.Base.{
  ℕ, zero, suc, ◌+◌, ◌-◌, ◌*◌, ◌/◌, ◌%◌, ◌<◌, ◌≡◌, Bool, true, false, Option, none, some, Result,
  ok, err, Fault, ◌>>=◌, ltb, leb, ◌==◌, if◌then◌else◌, update, List, [], ◌∷◌,
}
use serendip6_reobs.Config.{Config, n_data_bytes_per_block}
use serendip6_reobs.Databuf.{Rv, Hashpipe, OutputDatabuf, OutputBlock, OutputHeader}
use serendip6_reobs.Databuf.Wait.{wait_loop}
use serendip6_reobs.Databuf.Output.{s6_output_databuf_wait_filled, s6_output_databuf_set_free}

-- A file: its length and its bytes.
pub record File : Type 0 where
  pub length : ℕ
  pub bytes : ℕ → ℕ

-- The keys that a round reads from the status buffer, none where the key is missing.
pub record Keys : Type 0 where
  pub run_always : Option ℕ
  pub idle : Option ℕ
  pub testmode : Option ℕ

-- The variables of run, of its `etf` and its `faststatus`, the buffer, the file on disk, and the keys
-- that it sets. Names of receivers are lists of bytes; `time` is in nanoseconds.
pub record OutputState (hp : Hashpipe) : Type 0 where
  pub block_idx : ℕ
  pub db : OutputDatabuf hp
  pub run_always : ℕ
  pub prior_run_always : ℕ
  pub idle : ℕ
  pub idle_flag : ℕ
  pub testmode : ℕ
  pub num_coarse_chan : ℕ
  pub time : ℕ
  pub receiver : List ℕ
  pub dumpvolt : ℕ
  pub prior_receiver : List ℕ
  pub beam : ℕ
  pub pol : ℕ
  pub new_file : Bool
  pub file_num : ℕ
  pub file : Option File
  pub outblkin : ℕ
  pub idle_key : ℕ
  pub dumpvolt_key : ℕ
  pub filenum : ℕ

-- hgeti4: the variable stays as it is when the key is missing.
unfoldable pub hgeti4 : Option ℕ → ℕ → ℕ
hgeti4 none old = old
hgeti4 (some v) old = v

-- strcmp(a, b) == 0
unfoldable pub same_text : List ℕ → List ℕ → Bool
same_text [] [] = true
same_text [] (y ∷ ys) = false
same_text (x ∷ xs) [] = false
same_text (x ∷ xs) (y ∷ ys) = if x == y then same_text xs ys else false

-- "S6TEST"
abbrev pub s6test : List ℕ
s6test = 83 ∷ 54 ∷ 84 ∷ 69 ∷ 83 ∷ 84 ∷ []

-- The bit `idle_redis_error`, number 1, of `idle_flag`.
abbrev pub has_redis_error : ℕ → Bool
has_redis_error idle_flag = (idle_flag / 2) % 2 == 1

-- The generic check of redis, on the `rv` that the round has at that point.
unfoldable pub check_redis : (rv idle_flag : ℕ) → ℕ
check_redis rv idle_flag =
    if rv == 0
    then if has_redis_error idle_flag then idle_flag - 2 else idle_flag
    else if has_redis_error idle_flag
    then idle_flag
    else idle_flag + 2

unfoldable pub check_idle : (idle_flag idle : ℕ) → ℕ
check_idle idle_flag idle =
    if idle_flag == 0 then if idle == 0 then idle else 0 else if idle == 0 then 1 else idle

-- memset of a whole block to zero.
abbrev pub zero_output_block : OutputBlock
zero_output_block = record {
  header = record {
    mcnt = 0;
    coarse_chan_id = 0;
    num_coarse_chan = 0;
    sid = 0;
    time_sec = 0;
    time_nsec = 0;
    missed_pkts = λ k. 0;
    nhits = λ k. 0;
  };
  bytes = λ j. 0;
}

-- write_to_file: the file is made anew. `opens` says whether fopen succeeds.
unfoldable pub write_to_file : Config → (opens : Bool) → OutputBlock → Option File
write_to_file c true b = some record { length = n_data_bytes_per_block c; bytes = b.bytes }
write_to_file c false b = none

module _ {hp : Hashpipe} where
  -- From the metadata of the block to the end of the idle checking. Since the call of redis is commented
  -- out, `rv` is still what the wait returned, HASHPIPE_OK, which is 0. In test mode `faststatus` is
  -- zeroed, its time included; otherwise its DUMPVOLT goes to the status buffer.
  unfoldable pub observe : Keys → OutputBlock → OutputState hp → OutputState hp
  observe keys b s =
      let testmode = hgeti4 keys.testmode s.testmode in
      let idle_flag = check_redis 0 s.idle_flag in
      let idle = check_idle idle_flag (hgeti4 keys.idle s.idle) in
      record s {
        beam = b.header.sid / 2;
        pol = b.header.sid % 2;
        time = if testmode == 0 then 1000000000 * b.header.time_sec + b.header.time_nsec else 0;
        testmode = testmode;
        receiver = if testmode == 0 then s.receiver else s6test;
        dumpvolt = if testmode == 0 then s.dumpvolt else 0;
        dumpvolt_key = if testmode == 0 then s.dumpvolt else s.dumpvolt_key;
        idle_flag = idle_flag;
        idle = idle;
        idle_key = idle;
      }

  -- The test for a file change event.
  unfoldable pub file_change : OutputBlock → OutputState hp → Bool
  file_change b s =
      if s.testmode == 0
      then if same_text s.receiver s.prior_receiver
        then if s.run_always == s.prior_run_always
          then if s.num_coarse_chan == b.header.num_coarse_chan then false else true
          else true
        else true
      else false

  unfoldable pub change_files : OutputBlock → OutputState hp → OutputState hp
  change_files b s =
      if file_change b s
      then record s {
        new_file = true;
        prior_receiver = s.receiver;
        num_coarse_chan = b.header.num_coarse_chan;
        prior_run_always = s.run_always;
      }
      else s

  -- Whether the round writes: if (testmode || run_always).
  abbrev pub writes : OutputState hp → Bool
  writes s = if s.testmode == 0 then if s.run_always == 0 then false else true else true

  unfoldable pub write_block :
      Config → (opens : Bool) → OutputBlock → OutputState hp → Result (OutputState hp)
  write_block c opens b s =
      if writes s
      then elim (write_to_file c opens b) [
        | some f ↦ ok (record s { file = some f; file_num = s.file_num + 1 })
        | none ↦ err Fault.thread_exit
      ]
      else ok s

  -- The block is zeroed and freed, and the next one is taken.
  unfoldable pub release_block : OutputState hp → OutputState hp
  release_block s =
      let (_, db) =
        s6_output_databuf_set_free
          (record (s.db) { block = update s.db.block s.block_idx zero_output_block }) s.block_idx in
      record s { filenum = s.file_num; db = db; block_idx = (s.block_idx + 1) % db.n_block }

  -- One round of the main loop.
  unfoldable pub output_round :
      Config → (fuel : ℕ) → Keys → (opens : Bool) → OutputState hp → Result (OutputState hp)
  output_round c fuel keys opens s = do
    db ← wait_loop fuel (λ d. s6_output_databuf_wait_filled d s.block_idx) s.db
    let b = db.block s.block_idx
    let s1 = record s {
      outblkin = s.block_idx;
      run_always = hgeti4 keys.run_always s.run_always;
      db = db;
    }
    t ← write_block c opens b (change_files b (observe keys b s1))
    ok (release_block t)
