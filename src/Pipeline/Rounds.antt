-- ===== src/Pipeline/Rounds.antt =====
-- What the rounds of the GPU thread and of the output thread do to the semaphores of the buffers.
use serendip6_reobs.Base.{
  ℕ, ◌≡◌, ok, >>=-eq-ok, ok-injective, leb, update, refl, sym, ap, ◌∙◌, arith, Bool, true, false,
}
use serendip6_reobs.Config.{Config}
use serendip6_reobs.Databuf.{Hashpipe, OutputDatabuf}
use serendip6_reobs.Databuf.Wait.{wait_loop}
use serendip6_reobs.Databuf.Input.{s6_input_databuf_set_free}
use serendip6_reobs.Databuf.Output.{
  s6_output_databuf_wait_free, s6_output_databuf_set_filled, s6_output_databuf_wait_filled,
  s6_output_databuf_set_free,
}
use serendip6_reobs.Gpu.{GpuState, await_output, gpu_round}
use serendip6_reobs.Output.{OutputState, Keys, write_block, release_block, output_round}
use serendip6_reobs.Output.Passing.{decided, written_lem}
use serendip6_reobs.Pipeline.Semaphores.{Semaphores, wait_loop_last}

update_like :
    {f g : ℕ → Bool} (i : ℕ) (b : Bool)
    → ((j : ℕ) → f j ≡ g j)
    → (j : ℕ) → update f i b j ≡ update g i b j
update_like i b same j = ground (arith, same j)

module _ {hp : Hashpipe} (sem : Semaphores hp) where
  open sem use {filled}

  -- The header `h1` has the semaphores of `h`.
  abbrev Same : hp.Header → hp.Header → Type 0
  Same h h1 = (j : ℕ) → filled h1 j ≡ filled h j

  -- A wait for a filled block has seen it filled and has changed nothing.
  wait_filled_seen :
      (fuel i : ℕ) (h : hp.Header) {h' : hp.Header}
      → wait_loop fuel (λ x. hp.wait_filled x i) h ≡ ok h'
      → (filled h i ≡ true) × Same h h'
  wait_filled_seen fuel i h e =
      let (h1, same, called, last) =
        wait_loop_last (Same h) (λ x. hp.wait_filled x i) (λ x p j. sem.see_filled x i j ∙ p j) fuel
          h (λ j. refl) e in
      (
        sym (same i) ∙ sem.filled_seen h1 i called,
        λ j. ap (λ x. filled x j) (sym last) ∙ sem.see_filled h1 i j ∙ same j,
      )

  output_wait_filled_seen :
      (fuel i : ℕ) (d : OutputDatabuf hp) {d' : OutputDatabuf hp}
      → wait_loop fuel (λ x. s6_output_databuf_wait_filled x i) d ≡ ok d'
      → (filled d.header i ≡ true) × Same d.header d'.header
  unfolding s6_output_databuf_wait_filled
  output_wait_filled_seen fuel i d e =
      let (d1, same, called, last) =
        wait_loop_last (λ (x : OutputDatabuf hp). Same d.header x.header)
          (λ x. s6_output_databuf_wait_filled x i) (λ x p j. sem.see_filled x.header i j ∙ p j) fuel
          d (λ j. refl) e in
      (
        sym (same i) ∙ sem.filled_seen d1.header i called,
        λ j.
            ap (λ (x : OutputDatabuf hp). filled x.header j) (sym last)
            ∙ sem.see_filled d1.header i j
            ∙ same j,
      )

  output_wait_free_seen :
      (fuel i : ℕ) (d : OutputDatabuf hp) {d' : OutputDatabuf hp}
      → wait_loop fuel (λ x. s6_output_databuf_wait_free x i) d ≡ ok d'
      → (filled d.header i ≡ false) × Same d.header d'.header
  unfolding s6_output_databuf_wait_free
  output_wait_free_seen fuel i d e =
      let (d1, same, called, last) =
        wait_loop_last (λ (x : OutputDatabuf hp). Same d.header x.header)
          (λ x. s6_output_databuf_wait_free x i) (λ x p j. sem.see_free x.header i j ∙ p j) fuel d
          (λ j. refl) e in
      (
        sym (same i) ∙ sem.free_seen d1.header i called,
        λ j.
            ap (λ (x : OutputDatabuf hp). filled x.header j) (sym last)
            ∙ sem.see_free d1.header i j
            ∙ same j,
      )

  module _ (c : Config) where
    -- The wait for the output block is made, since the last mcount is 0.
    await_output_seen :
        (fuel m : ℕ) (s : GpuState hp) {d : OutputDatabuf hp}
        → s.last_mcount ≡ 0
        → await_output c fuel m s ≡ ok d
        → (filled s.db_out.header s.curblock_out ≡ false) × Same s.db_out.header d.header
    unfolding await_output
    await_output_seen fuel m s start e =
        let forward : leb s.last_mcount m ≡ true = ground (arith, start) in
        output_wait_free_seen fuel s.curblock_out s.db_out (rw forward at e)

    -- A round of the GPU thread that ends has found its input block filled and its output block free, and
    -- leaves them the other way round.
    pub gpu_round-semaphores :
        (fuel : ℕ) (s : GpuState hp) {t : GpuState hp}
        → s.last_mcount ≡ 0
        → gpu_round c fuel s ≡ ok t
        → (filled s.db_in.header s.curblock_in ≡ true)
          × (filled s.db_out.header s.curblock_out ≡ false)
          × ((j : ℕ)
              → filled t.db_in.header j ≡ update (filled s.db_in.header) s.curblock_in false j)
          × ((j : ℕ)
              → filled t.db_out.header j ≡ update (filled s.db_out.header) s.curblock_out true j)
          × (t.last_mcount ≡ 0)
          × (t.num_coarse_chan ≡ s.num_coarse_chan)
    unfolding gpu_round s6_output_databuf_set_filled s6_input_databuf_set_free
    gpu_round-semaphores fuel s {t} start e =
        let (h, got, e1) =
          >>=-eq-ok (wait_loop fuel (λ h. hp.wait_filled h s.curblock_in) s.db_in.header) _ e in
        let (d, free, e2) =
          >>=-eq-ok (await_output c fuel (s.db_in.block s.curblock_in).header.mcnt s) _ e1 in
        let (was_filled, same_in) = wait_filled_seen fuel s.curblock_in s.db_in.header got in
        let (was_free, same_out) =
          await_output_seen fuel (s.db_in.block s.curblock_in).header.mcnt s start free in
        rw (← ok-injective e2) (
          was_filled,
          was_free,
          λ j. sem.free h s.curblock_in j ∙ update_like s.curblock_in false same_in j,
          λ j. sem.fill d.header s.curblock_out j ∙ update_like s.curblock_out true same_out j,
          start,
          refl,
        )

    -- A round of the output thread that ends has found its block filled, and leaves it free.
    pub output_round-semaphores :
        (fuel : ℕ) (keys : Keys) (opens : Bool) (s : OutputState hp) {t : OutputState hp}
        → output_round c fuel keys opens s ≡ ok t
        → (filled s.db.header s.block_idx ≡ true)
          × ((j : ℕ) → filled t.db.header j ≡ update (filled s.db.header) s.block_idx false j)
    unfolding output_round release_block s6_output_databuf_set_free
    output_round-semaphores fuel keys opens s {t} e =
        let (d, filled_now, e1) =
          >>=-eq-ok (wait_loop fuel (λ d. s6_output_databuf_wait_filled d s.block_idx) s.db) _ e in
        let (w, written, e2) =
          >>=-eq-ok (write_block c opens (d.block s.block_idx) (decided c keys d s)) _ e1 in
        let (index, db, _, _, _) = written_lem c keys opens d s written in
        let (was_filled, same) = output_wait_filled_seen fuel s.block_idx s.db filled_now in
        rw (← ok-injective e2) (
          was_filled,
          λ j.
              rw (index, db)
                (sem.free d.header s.block_idx j ∙ update_like s.block_idx false same j),
        )
