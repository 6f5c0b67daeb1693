-- ===== src/Output/Passing.antt =====
-- What a round of the output thread does: the file that it leaves, the block that it frees, the idle
-- condition that it publishes.
use serendip6_reobs.Base.{
  ℕ, ◌+◌, ◌%◌, ◌<◌, ◌≡◌, ◌≢◌, Bool, true, false, some, ok, err, Fault, >>=-eq-ok, ok-injective,
  ◌==◌, if◌then◌else◌, update_self, update_ne, refl, sym, ap, ◌∙◌, arith, Bool-cases, inl, inr,
}
use serendip6_reobs.Config.{Config, n_data_bytes_per_block}
use serendip6_reobs.Databuf.{Hashpipe, OutputDatabuf, OutputBlock}
use serendip6_reobs.Databuf.Wait.{wait_loop, wait_loop_keeps, Succeeds, wait_loop-Succeeds}
use serendip6_reobs.Databuf.Output.{s6_output_databuf_wait_filled, s6_output_databuf_set_free}
use serendip6_reobs.Output.{
  OutputState, Keys, File, hgeti4, check_redis, check_idle, write_to_file, zero_output_block,
  observe, change_files, file_change, write_block, release_block, output_round, writes,
}

-- The file that a block makes.
abbrev pub file_of : Config → OutputBlock → File
file_of c b = record { length = n_data_bytes_per_block c; bytes = b.bytes }

-- Whether a round with these keys writes its block: test mode is on, or the flag to run always.
abbrev pub wants_file : {hp : Hashpipe} → Keys → OutputState hp → Bool
wants_file keys s =
    if hgeti4 keys.testmode s.testmode == 0
    then if hgeti4 keys.run_always s.run_always == 0 then false else true
    else true

stays_clear : (f : ℕ) → f ≡ 0 → check_redis 0 f ≡ 0
unfolding check_redis
stays_clear f e = rw e refl

clear_means_0 : (f idle : ℕ) → f ≡ 0 → check_idle (check_redis 0 f) idle ≡ 0
unfolding check_idle check_redis
clear_means_0 f idle e = rw e (ground arith)

module _ (c : Config) {hp : Hashpipe} where
  -- The state in which a round decides whether to write.
  abbrev pub decided : Keys → OutputDatabuf hp → OutputState hp → OutputState hp
  decided keys db s =
      let b = db.block s.block_idx in
      change_files b (
        observe keys b (record s {
          outblkin = s.block_idx;
          run_always = hgeti4 keys.run_always s.run_always;
          db = db;
        }))

  -- What the file change leaves alone.
  change_files_keeps :
      (b : OutputBlock) (s : OutputState hp)
      → let t = change_files b s in
        (t.block_idx ≡ s.block_idx)
        × (t.db ≡ s.db)
        × (t.testmode ≡ s.testmode)
        × (t.run_always ≡ s.run_always)
        × (t.idle ≡ s.idle)
        × (t.idle_key ≡ s.idle_key)
        × (t.idle_flag ≡ s.idle_flag)
        × (t.file ≡ s.file)
        × (t.file_num ≡ s.file_num)
  unfolding change_files
  change_files_keeps b s = elim (Bool-cases (file_change b s)) [
    | inl p ↦ rw p (refl, refl, refl, refl, refl, refl, refl, refl, refl)
    | inr p ↦ rw p (refl, refl, refl, refl, refl, refl, refl, refl, refl)
  ]

  -- What the writing of a block, when it succeeds, changes: the file, if the thread is to write.
  write_block_lem :
      (opens : Bool) (b : OutputBlock) (s : OutputState hp) {t : OutputState hp}
      → write_block c opens b s ≡ ok t
      → (t.block_idx ≡ s.block_idx)
        × (t.db ≡ s.db)
        × (t.idle_key ≡ s.idle_key)
        × (t.idle_flag ≡ s.idle_flag)
        × (t.file ≡ (if writes s then some (file_of c b) else s.file))
  unfolding write_block write_to_file
  write_block_lem true b s {t} e = elim (Bool-cases (writes s)) [
    | inl p ↦ rw (← ok-injective (rw p at e), p) (refl, refl, refl, refl, refl)
    | inr p ↦ rw (← ok-injective (rw p at e), p) (refl, refl, refl, refl, refl)
  ]
  write_block_lem false b s {t} e = elim (Bool-cases (writes s)) [
    | inl p ↦ (let q = rw p at e in cc)
    | inr p ↦ rw (← ok-injective (rw p at e), p) (refl, refl, refl, refl, refl)
  ]

  -- The state after the writing, in terms of the state before the round.
  pub written_lem :
      (keys : Keys) (opens : Bool) (d : OutputDatabuf hp) (s : OutputState hp) {t : OutputState hp}
      → write_block c opens (d.block s.block_idx) (decided keys d s) ≡ ok t
      → (t.block_idx ≡ s.block_idx)
        × (t.db ≡ d)
        × (t.idle_key ≡ check_idle (check_redis 0 s.idle_flag) (hgeti4 keys.idle s.idle))
        × (t.idle_flag ≡ check_redis 0 s.idle_flag)
        × (t.file ≡ (if wants_file keys s then some (file_of c (d.block s.block_idx)) else s.file))
  unfolding observe
  written_lem keys opens d s {t} e =
      let b = d.block s.block_idx in
      let o = observe keys b (record s {
        outblkin = s.block_idx;
        run_always = hgeti4 keys.run_always s.run_always;
        db = d;
      }) in
      let (index, db, mode, always, i, key, flag, file, num) = change_files_keeps b o in
      let (index', db', key', flag', file') = write_block_lem opens b (decided keys d s) e in
      (index' ∙ index, db' ∙ db, key' ∙ key, flag' ∙ flag, rw (mode, always, file) at file')

  -- What a round that ends does. With `b` the block that it is about: the next block of the ring is the
  -- next round's; block `b` is zeroed in the buffer, the others are as before; and if test mode is on or
  -- the flag to run always, as the status buffer last said, the file holds the data of `b` and nothing
  -- else, and is as it was otherwise.
  pub output_round-writes :
      (fuel : ℕ) (keys : Keys) (opens : Bool) (s : OutputState hp) {t : OutputState hp}
      → output_round c fuel keys opens s ≡ ok t
      → (t.block_idx ≡ (s.block_idx + 1) % s.db.n_block)
        × (t.db.n_block ≡ s.db.n_block)
        × (t.db.block s.block_idx ≡ zero_output_block)
        × ((j : ℕ) → j ≢ s.block_idx → t.db.block j ≡ s.db.block j)
        × (t.file
            ≡ (if wants_file keys s then some (file_of c (s.db.block s.block_idx)) else s.file))
  unfolding output_round release_block s6_output_databuf_set_free s6_output_databuf_wait_filled
      observe
  output_round-writes fuel keys opens s {t} e =
      let (d, filled, e1) =
        >>=-eq-ok (wait_loop fuel (λ d. s6_output_databuf_wait_filled d s.block_idx) s.db) _ e in
      let (w, written, e2) =
        >>=-eq-ok (write_block c opens (d.block s.block_idx) (decided keys d s)) _ e1 in
      let (same, size) =
        wait_loop_keeps
          (λ (x : OutputDatabuf hp). (x.block ≡ s.db.block) × (x.n_block ≡ s.db.n_block))
          (λ d. s6_output_databuf_wait_filled d s.block_idx) (λ x p. p) fuel s.db (refl, refl)
          filled in
      let (index, db, key, flag, file) = written_lem keys opens d s written in
      rw (← ok-injective e2) (
        rw (index, db) (ap (λ n. (s.block_idx + 1) % n) size),
        rw db size,
        rw (index, db, same) (update_self s.db.block s.block_idx zero_output_block),
        λ j ne.
            rw (index, db, same)
              (update_ne s.db.block s.block_idx j zero_output_block (λ p. ne (sym p))),
        file
            ∙ ap
                (λ (f : ℕ → OutputBlock).
                  if wants_file keys s then some (file_of c (f s.block_idx)) else s.file)
                same,
      )

  -- Started without an idle condition, the thread never has one: every round that ends publishes an IDLE
  -- of 0, whatever the key was set to before it.
  pub output_round-never_idle :
      (fuel : ℕ) (keys : Keys) (opens : Bool) (s : OutputState hp) {t : OutputState hp}
      → s.idle_flag ≡ 0
      → output_round c fuel keys opens s ≡ ok t
      → (t.idle_flag ≡ 0) × (t.idle_key ≡ 0)
  unfolding output_round release_block s6_output_databuf_set_free observe check_redis check_idle
  output_round-never_idle fuel keys opens s {t} no_flag e =
      let (d, filled, e1) =
        >>=-eq-ok (wait_loop fuel (λ d. s6_output_databuf_wait_filled d s.block_idx) s.db) _ e in
      let (w, written, e2) =
        >>=-eq-ok (write_block c opens (d.block s.block_idx) (decided keys d s)) _ e1 in
      let (index, db, key, flag, file) = written_lem keys opens d s written in
      rw (← ok-injective e2) (
        flag ∙ stays_clear s.idle_flag no_flag,
        key ∙ clear_means_0 s.idle_flag (hgeti4 keys.idle s.idle) no_flag,
      )

  writes-decided :
      (keys : Keys) (d : OutputDatabuf hp) (s : OutputState hp)
      → writes (decided keys d s) ≡ wants_file keys s
  unfolding observe
  writes-decided keys d s =
      let (_, _, mode, always, _, _, _, _, _) = change_files_keeps (d.block s.block_idx) (
        observe keys (d.block s.block_idx) (record s {
          outblkin = s.block_idx;
          run_always = hgeti4 keys.run_always s.run_always;
          db = d;
        })) in
      rw (mode, always) refl

  write_block-opens :
      (b : OutputBlock) (s : OutputState hp)
      → (t : OutputState hp) × (write_block c true b s ≡ ok t)
  unfolding write_block write_to_file
  write_block-opens b s = elim (Bool-cases (writes s)) [
    | inl p ↦ rw p (_, refl)
    | inr p ↦ rw p (_, refl)
  ]

  -- A round ends if the wait succeeds after fewer timeouts than the bound and the file can be made.
  pub output_round-returns :
      (fuel : ℕ) (keys : Keys) (s : OutputState hp) {n : ℕ} {d : OutputDatabuf hp}
      → Succeeds (λ x. s6_output_databuf_wait_filled x s.block_idx) n s.db d
      → n < fuel
      → (t : OutputState hp) × (output_round c fuel keys true s ≡ ok t)
  unfolding output_round
  output_round-returns fuel keys s {n} {d} filled in_time =
      let (w, written) = write_block-opens (d.block s.block_idx) (decided keys d s) in
      rw (wait_loop-Succeeds _ fuel filled in_time, written) (_, refl)

  -- When the file cannot be made, a round that is to write ends the thread, once its wait succeeds.
  pub output_round-no_file :
      (fuel : ℕ) (keys : Keys) (s : OutputState hp) {n : ℕ} {d : OutputDatabuf hp}
      → Succeeds (λ x. s6_output_databuf_wait_filled x s.block_idx) n s.db d
      → n < fuel
      → wants_file keys s ≡ true
      → output_round c fuel keys false s ≡ err Fault.thread_exit
  unfolding output_round write_block write_to_file
  output_round-no_file fuel keys s {n} {d} filled in_time wants =
      rw (wait_loop-Succeeds _ fuel filled in_time, writes-decided keys d s, wants) refl
