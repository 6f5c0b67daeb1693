-- ===== src/Pipeline.antt =====
-- The threads that src/s6_init_fast.sh starts, over the buffers that they share: src/s6_pktsock_thread.cpp,
-- src/s6_gpu_thread.cpp and src/s6_output_thread.cpp. Here, one round of each of the last two.
pub mod Ring
pub mod Semaphores
pub mod Rounds
pub mod Incoming
pub mod Outgoing
pub mod Invariant
pub mod Delivered
pub mod Delivery
pub mod Progress
pub mod Parcels
pub mod Payload
pub mod System
use serendip6_reobs.Base.{ℕ, ◌<◌, ◌≡◌, ◌≢◌, Bool, true, some, ok, refl, ap, ◌∙◌}
use serendip6_reobs.Config.{fast_of, n_data_bytes_per_block}
use serendip6_reobs.Databuf.{Hashpipe, OutputBlock}
use serendip6_reobs.Gpu.{GpuState, gpu_round}
use serendip6_reobs.Gpu.Passing.{gpu_round-passes, pass_block-fast}
use serendip6_reobs.Output.{OutputState, Keys, File, output_round}
use serendip6_reobs.Output.Passing.{output_round-writes, wants_file, file_of}

-- For SOURCE_FAST, when a round of the GPU thread and then the round of the output thread about the same
-- block end, and the output thread is to write, the file has the length of the data of a block, and the
-- data of the input block byte for byte.
output_round-gpu_round :
    (n : ℕ) {hp : Hashpipe} (fuel fuel_out : ℕ) (g : GpuState hp) {g' : GpuState hp} (keys : Keys)
    (opens : Bool) (s : OutputState hp) {t : OutputState hp}
    → g.num_coarse_chan ≢ 0
    → gpu_round (fast_of n) fuel g ≡ ok g'
    → s.block_idx ≡ g.curblock_out
    → s.db.block ≡ g'.db_out.block
    → wants_file keys s ≡ true
    → output_round (fast_of n) fuel_out keys opens s ≡ ok t
    → (f : File) × (t.file ≡ some f)
      × (f.length ≡ n_data_bytes_per_block (fast_of n))
      × ((j : ℕ)
          → j < n_data_bytes_per_block (fast_of n)
          → f.bytes j ≡ (g.db_in.block g.curblock_in).bytes j)
output_round-gpu_round n fuel fuel_out g {g'} keys opens s {t} some_chan passed index buffer wants
      wrote =
    let (_, _, _, _, _, passes, _) = gpu_round-passes (fast_of n) fuel g passed in
    let (_, _, _, _, file) = output_round-writes (fast_of n) fuel_out keys opens s wrote in
    let (_, _, _, _, _, _, _, _, bytes) =
      pass_block-fast n g.num_coarse_chan (g.db_in.block g.curblock_in)
        (g.db_out.block g.curblock_out) some_chan in
    let written = rw wants at file in
    (
      file_of (fast_of n) (s.db.block s.block_idx),
      written,
      refl,
      λ j inside.
          ap (λ (b : OutputBlock). b.bytes j)
            (ap (λ (f : ℕ → OutputBlock). f s.block_idx) buffer ∙ ap g'.db_out.block index ∙ passes)
          ∙ bytes j inside,
    )
