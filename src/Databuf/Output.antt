-- ===== src/Databuf/Output.antt =====
-- The functions of src/s6_databuf.h and src/s6_databuf.cpp on the output buffer.
use serendip6_reobs.Base.{ℕ, ◌+◌, ◌*◌, ◌/◌, Option}
use serendip6_reobs.Config.{Config, Source, n_data_bytes_per_block, max_gpu_hits}
use serendip6_reobs.Databuf.{Rv, Hashpipe, OutputDatabuf}
use serendip6_reobs.Databuf.Input.{cache_padding}

-- sizeof(s6_output_block_header_t): `sid` is there for SOURCE_FAST only.
abbrev pub sizeof_output_header : Config → ℕ
sizeof_output_header c =
    elim c.source [
      | Source.source_fast ↦ 6 * 8
      | Source.source_s6 ↦ 5 * 8
      | Source.source_dibas ↦ 5 * 8
    ]
    + 8 * c.n_bors
    + 8 * c.n_bors

-- sizeof(s6_output_block_t): header and padding; the arrays of 4, 4, 8, 4, 4 and 4 bytes of each hit;
-- the two arrays of coarse channel powers; the data, on a boundary of 8 bytes.
abbrev pub sizeof_output_block : Config → ℕ
sizeof_output_block c =
    let hits = c.n_bors * max_gpu_hits c in
    let front = sizeof_output_header c + cache_padding (sizeof_output_header c) in
    let powers = c.n_bors * c.n_coarse_chan_per_bors in
    let before = front + 28 * hits + 8 * powers in
    (before + 7) / 8 * 8 + n_data_bytes_per_block c / 8 * 8

module _ {hp : Hashpipe} where
  abbrev on_header : (hp.Header → Rv × hp.Header) → OutputDatabuf hp → Rv × OutputDatabuf hp
  on_header f d = let (rv, h) = f d.header in (rv, record d { header = h })

  pub s6_output_databuf_clear : OutputDatabuf hp → OutputDatabuf hp
  s6_output_databuf_clear d = record d { header = hp.clear d.header }

  pub s6_output_databuf_detach : OutputDatabuf hp → Rv
  s6_output_databuf_detach d = hp.detach d.header

  pub s6_output_databuf_block_status : OutputDatabuf hp → ℕ → ℕ
  s6_output_databuf_block_status d block_id = hp.block_status d.header block_id

  pub s6_output_databuf_total_status : OutputDatabuf hp → ℕ
  s6_output_databuf_total_status d = hp.total_status d.header

  unfoldable pub s6_output_databuf_wait_free : OutputDatabuf hp → ℕ → Rv × OutputDatabuf hp
  s6_output_databuf_wait_free d block_id = on_header (λ h. hp.wait_free h block_id) d

  unfoldable pub s6_output_databuf_busywait_free : OutputDatabuf hp → ℕ → Rv × OutputDatabuf hp
  s6_output_databuf_busywait_free d block_id = on_header (λ h. hp.busywait_free h block_id) d

  unfoldable pub s6_output_databuf_wait_filled : OutputDatabuf hp → ℕ → Rv × OutputDatabuf hp
  s6_output_databuf_wait_filled d block_id = on_header (λ h. hp.wait_filled h block_id) d

  unfoldable pub s6_output_databuf_busywait_filled : OutputDatabuf hp → ℕ → Rv × OutputDatabuf hp
  s6_output_databuf_busywait_filled d block_id = on_header (λ h. hp.busywait_filled h block_id) d

  unfoldable pub s6_output_databuf_set_free : OutputDatabuf hp → ℕ → Rv × OutputDatabuf hp
  s6_output_databuf_set_free d block_id = on_header (λ h. hp.set_free h block_id) d

  unfoldable pub s6_output_databuf_set_filled : OutputDatabuf hp → ℕ → Rv × OutputDatabuf hp
  s6_output_databuf_set_filled d block_id = on_header (λ h. hp.set_filled h block_id) d

module _ (hp : Hashpipe) where
  pub s6_output_databuf_create :
      Config → (sizeof_hashpipe_databuf instance_id databuf_id : ℕ) → Option hp.Header
  s6_output_databuf_create c sizeof_hashpipe_databuf instance_id databuf_id =
      hp.create instance_id databuf_id
        (sizeof_hashpipe_databuf + cache_padding sizeof_hashpipe_databuf) (sizeof_output_block c)
        c.n_output_blocks

  pub s6_output_databuf_attach : (instance_id databuf_id : ℕ) → Option hp.Header
  s6_output_databuf_attach instance_id databuf_id = hp.attach instance_id databuf_id
