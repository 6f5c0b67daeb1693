-- ===== src/FakeNet.antt =====
-- src/s6_fake_net_thread.cpp and src/s6_gen_fake_data.cpp: stands in for the network and fills the
-- blocks of the input buffer with a sine wave. The value of a sample, computed in floating point, is a
-- parameter of the model. Left out are the sleep of a second and the keys of the status buffer.
use serendip6_reobs.Base.{
  ℕ, zero, suc, ◌+◌, ◌-◌, ◌%◌, ◌<◌, ◌≤◌, ◌≡◌, Result, ok, ◌>>=◌, >>=-eq-ok, ok-injective, add64,
  ltb, ◌==◌, if◌then◌else◌, update, update_ne, refl, ap, ◌∙◌, arith, Bool-cases, inl, inr,
}
use serendip6_reobs.Config.{Config, n_data_bytes_per_block}
use serendip6_reobs.Databuf.{Hashpipe, InputDatabuf, InputBlock, InputHeader}
use serendip6_reobs.Databuf.Wait.{wait_loop, wait_loop_keeps, Succeeds, wait_loop-Succeeds}
use serendip6_reobs.Databuf.Input.{s6_input_databuf_wait_free, s6_input_databuf_set_filled}
use serendip6_reobs.Packets.{memcpy, memcpy_inside}

-- The variables of run, and the buffer.
pub record FakeState (hp : Hashpipe) : Type 0 where
  pub mcnt : ℕ
  pub block_idx : ℕ
  pub db : InputDatabuf hp

-- gen_fake_data: its loop over the time samples, `n` of them done. `sample t` is the byte
-- (char)(127 * sin(2 * pi * t * 128 / 1024)).
gen_fake_data : (sample : ℕ → ℕ) (n : ℕ) → (ℕ → ℕ) → ℕ → ℕ
gen_fake_data sample zero samples = samples
gen_fake_data sample (suc t) samples = update (gen_fake_data sample t samples) t (sample t)

module _ (c : Config) where
  -- The loop that copies the data of block 0 to the blocks 1 to `k`.
  copy_fake : (k : ℕ) → (ℕ → InputBlock) → ℕ → InputBlock
  copy_fake zero block = block
  copy_fake (suc k) block =
      let done = copy_fake k block in
      update done (suc k) (record (done (suc k)) {
        bytes = memcpy (done (suc k)).bytes 0 (done 0).bytes 0 (n_data_bytes_per_block c);
      })

  -- The header of the block that the round is about.
  fake_header : (mcnt : ℕ) → InputHeader → InputHeader
  fake_header mcnt h = record h {
    mcnt = mcnt;
    coarse_chan_id = 321;
    num_coarse_chan = c.n_coarse_chan;
    missed_pkts = λ k. if ltb k c.n_beam_slots then 0 else h.missed_pkts k;
  }

  -- What the round writes into the blocks.
  pub fake_blocks : (sample : ℕ → ℕ) (mcnt block_idx : ℕ) → (ℕ → InputBlock) → ℕ → InputBlock
  fake_blocks sample mcnt block_idx block =
      let headed =
        update block block_idx
          (record (block block_idx) { header = fake_header mcnt (block block_idx).header }) in
      let first =
        update headed 0
          (record (headed 0) { bytes = gen_fake_data sample c.n_time_samples (headed 0).bytes }) in
      copy_fake (c.n_input_blocks - 1) first

  module _ {hp : Hashpipe} where
    -- One round of the main loop.
    unfoldable pub fake_round : (fuel : ℕ) (sample : ℕ → ℕ) → FakeState hp → Result (FakeState hp)
    fake_round fuel sample s = do
      db ← wait_loop fuel (λ d. s6_input_databuf_wait_free d s.block_idx) s.db
      let (_, db') =
          s6_input_databuf_set_filled
            (record db { block = fake_blocks sample s.mcnt s.block_idx db.block }) s.block_idx
      ok (record s { db = db'; block_idx = (s.block_idx + 1) % db'.n_block; mcnt = add64 s.mcnt 1 })

-- The generator writes the samples and nothing behind them.
gen_fake_data_lem :
    (sample : ℕ → ℕ) (n : ℕ) (samples : ℕ → ℕ) (j : ℕ)
    → gen_fake_data sample n samples j ≡ (if ltb j n then sample j else samples j)
unfolding gen_fake_data
gen_fake_data_lem sample zero samples j = ground arith
gen_fake_data_lem sample (suc n) samples j =
    let before = gen_fake_data_lem sample n samples j in ground arith

-- The copies leave block 0, and every header, as they are.
copy_fake_keeps :
    (c : Config) (k : ℕ) (block : ℕ → InputBlock)
    → (copy_fake c k block 0 ≡ block 0) × ((i : ℕ) → k < i → copy_fake c k block i ≡ block i)
unfolding copy_fake
copy_fake_keeps c zero block = (refl, λ i p. refl)
copy_fake_keeps c (suc k) block =
    let (first, above) = copy_fake_keeps c k block in
    (
      update_ne (copy_fake c k block) (suc k) 0 _ (λ p. omega arith) ∙ first,
      λ i p. update_ne (copy_fake c k block) (suc k) i _ (λ q. omega arith) ∙ above i (omega arith),
    )

-- Blocks 1 to `k` have the data of block 0.
copy_fake_lem :
    (c : Config) (k : ℕ) (block : ℕ → InputBlock) (i j : ℕ)
    → i ≤ k
    → j < n_data_bytes_per_block c
    → (copy_fake c k block i).bytes j ≡ (block 0).bytes j
unfolding copy_fake
copy_fake_lem c zero block i j below inside = let only : i ≡ 0 = omega arith in rw only refl
copy_fake_lem c (suc k) block i j below inside =
    let (first, above) = copy_fake_keeps c k block in
    elim (Bool-cases (suc k == i)) [
      | inl last ↦ rw last (
          memcpy_inside _ 0 _ 0 _ j j inside (omega arith)
          ∙ ap (copy_fake c k block 0).bytes (omega arith)
          ∙ ap (λ (b : InputBlock). b.bytes j) first)
      | inr before ↦ rw before (copy_fake_lem c k block i j (ground arith) inside)
    ]

-- All blocks get the samples and, behind them, the same bytes of block 0.
fake_blocks-same :
    (c : Config) (sample : ℕ → ℕ) (mcnt block_idx : ℕ) (block : ℕ → InputBlock) (i j : ℕ)
    → i < c.n_input_blocks
    → j < n_data_bytes_per_block c
    → (fake_blocks c sample mcnt block_idx block i).bytes j
      ≡ (if ltb j c.n_time_samples then sample j else (block 0).bytes j)
unfolding fake_blocks
fake_blocks-same c sample mcnt block_idx block i j some_block inside =
    copy_fake_lem c (c.n_input_blocks - 1) _ i j (omega arith) inside
    ∙ gen_fake_data_lem sample c.n_time_samples _ j
    ∙ ground arith

module _ (c : Config) {hp : Hashpipe} where
  -- A round that ends writes the same data into all blocks of the buffer, whatever their semaphores say:
  -- the samples, and behind them the bytes that block 0 had. It takes the next block and the next mcnt.
  pub fake_round-fills :
      (fuel : ℕ) (sample : ℕ → ℕ) (s : FakeState hp) {t : FakeState hp}
      → fake_round c fuel sample s ≡ ok t
      → (t.block_idx ≡ (s.block_idx + 1) % s.db.n_block)
        × (t.mcnt ≡ add64 s.mcnt 1)
        × ((i j : ℕ)
            → i < c.n_input_blocks
            → j < n_data_bytes_per_block c
            → (t.db.block i).bytes j
              ≡ (if ltb j c.n_time_samples then sample j else (s.db.block 0).bytes j))
  unfolding fake_round s6_input_databuf_set_filled s6_input_databuf_wait_free
  fake_round-fills fuel sample s {t} e =
      let (d, free, e1) =
        >>=-eq-ok (wait_loop fuel (λ d. s6_input_databuf_wait_free d s.block_idx) s.db) _ e in
      let (same, size) =
        wait_loop_keeps
          (λ (x : InputDatabuf hp). (x.block ≡ s.db.block) × (x.n_block ≡ s.db.n_block))
          (λ d. s6_input_databuf_wait_free d s.block_idx) (λ x p. p) fuel s.db (refl, refl) free in
      rw (← ok-injective e1) (
        ap (λ n. (s.block_idx + 1) % n) size,
        refl,
        λ i j some_block inside.
            rw same (fake_blocks-same c sample s.mcnt s.block_idx s.db.block i j some_block inside),
      )

  -- A round ends if the wait succeeds after fewer timeouts than the bound.
  fake_round-returns :
      (fuel : ℕ) (sample : ℕ → ℕ) (s : FakeState hp) {n : ℕ} {d : InputDatabuf hp}
      → Succeeds (λ x. s6_input_databuf_wait_free x s.block_idx) n s.db d
      → n < fuel
      → (t : FakeState hp) × (fake_round c fuel sample s ≡ ok t)
  unfolding fake_round
  fake_round-returns fuel sample s free in_time =
      rw (wait_loop-Succeeds _ fuel free in_time) (_, refl)
