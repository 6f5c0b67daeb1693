-- ===== src/Databuf/Input.antt =====
-- The functions of src/s6_databuf.h and src/s6_databuf.cpp on the input buffer. Each passes its
-- buffer to hashpipe, which sees the header of it only; the messages of DEBUG_SEMS are left out.
use serendip6_reobs.Base.{ℕ, ◌+◌, ◌-◌, ◌*◌, ◌/◌, ◌%◌, Option}
use serendip6_reobs.Config.{Config, n_data_bytes_per_block, cache_alignment}
use serendip6_reobs.Databuf.{Rv, Hashpipe, InputDatabuf}

-- hashpipe_databuf_cache_alignment, s6_input_header_cache_alignment and its output twin: the padding
-- behind a structure of `size` bytes.
abbrev pub cache_padding : ℕ → ℕ
cache_padding size = cache_alignment - size % cache_alignment

-- sizeof(s6_input_block_header_t): six words, and one for each of N_BORS.
abbrev pub sizeof_input_header : Config → ℕ
sizeof_input_header c = 6 * 8 + 8 * c.n_bors

-- sizeof(s6_input_block_t)
abbrev pub sizeof_input_block : Config → ℕ
sizeof_input_block c =
    sizeof_input_header c + cache_padding (sizeof_input_header c) + n_data_bytes_per_block c / 8 * 8

module _ {hp : Hashpipe} where
  abbrev on_header : (hp.Header → Rv × hp.Header) → InputDatabuf hp → Rv × InputDatabuf hp
  on_header f d = let (rv, h) = f d.header in (rv, record d { header = h })

  pub s6_input_databuf_detach : InputDatabuf hp → Rv
  s6_input_databuf_detach d = hp.detach d.header

  pub s6_input_databuf_clear : InputDatabuf hp → InputDatabuf hp
  s6_input_databuf_clear d = record d { header = hp.clear d.header }

  pub s6_input_databuf_block_status : InputDatabuf hp → ℕ → ℕ
  s6_input_databuf_block_status d block_id = hp.block_status d.header block_id

  pub s6_input_databuf_total_status : InputDatabuf hp → ℕ
  s6_input_databuf_total_status d = hp.total_status d.header

  unfoldable pub s6_input_databuf_wait_free : InputDatabuf hp → ℕ → Rv × InputDatabuf hp
  s6_input_databuf_wait_free d block_id = on_header (λ h. hp.wait_free h block_id) d

  unfoldable pub s6_input_databuf_busywait_free : InputDatabuf hp → ℕ → Rv × InputDatabuf hp
  s6_input_databuf_busywait_free d block_id = on_header (λ h. hp.busywait_free h block_id) d

  unfoldable pub s6_input_databuf_wait_filled : InputDatabuf hp → ℕ → Rv × InputDatabuf hp
  s6_input_databuf_wait_filled d block_id = on_header (λ h. hp.wait_filled h block_id) d

  unfoldable pub s6_input_databuf_busywait_filled : InputDatabuf hp → ℕ → Rv × InputDatabuf hp
  s6_input_databuf_busywait_filled d block_id = on_header (λ h. hp.busywait_filled h block_id) d

  unfoldable pub s6_input_databuf_set_free : InputDatabuf hp → ℕ → Rv × InputDatabuf hp
  s6_input_databuf_set_free d block_id = on_header (λ h. hp.set_free h block_id) d

  unfoldable pub s6_input_databuf_set_filled : InputDatabuf hp → ℕ → Rv × InputDatabuf hp
  s6_input_databuf_set_filled d block_id = on_header (λ h. hp.set_filled h block_id) d

module _ (hp : Hashpipe) where
  -- Header and padding first, then the blocks; the sizes are in bytes. sizeof(hashpipe_databuf_t) is
  -- hashpipe's.
  pub s6_input_databuf_create :
      Config → (sizeof_hashpipe_databuf instance_id databuf_id : ℕ) → Option hp.Header
  s6_input_databuf_create c sizeof_hashpipe_databuf instance_id databuf_id =
      hp.create instance_id databuf_id
        (sizeof_hashpipe_databuf + cache_padding sizeof_hashpipe_databuf) (sizeof_input_block c)
        (c.n_input_blocks + c.n_debug_input_blocks)

  pub s6_input_databuf_attach : (instance_id databuf_id : ℕ) → Option hp.Header
  s6_input_databuf_attach instance_id databuf_id = hp.attach instance_id databuf_id
