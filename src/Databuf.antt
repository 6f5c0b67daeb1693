-- ===== src/Databuf.antt =====
-- src/s6_databuf.h and src/s6_databuf.cpp: the blocks of the two shared buffers and the functions
-- that reach them. The semaphores behind a buffer belong to hashpipe, whose source is not in this
-- repository: they are a parameter, a value of `Hashpipe`.
pub mod Input
pub mod Output
pub mod Wait
use serendip6_reobs.Base.{ℕ, Bool, Option}

-- What a hashpipe call returns: HASHPIPE_OK, HASHPIPE_TIMEOUT, or another error code.
pub data Rv : Type 0 where
  hashpipe_ok hashpipe_timeout hashpipe_err : Rv

-- The functions of hashpipe_databuf.c that the code calls. `Header` is what they read and write of
-- a hashpipe_databuf_t: the semaphores of the blocks, and whatever the other threads do meanwhile.
pub record Hashpipe : Type 1 where
  pub Header : Type 0
  pub create : ℕ → ℕ → ℕ → ℕ → ℕ → Option Header
  pub attach : ℕ → ℕ → Option Header
  pub detach : Header → Rv
  pub clear : Header → Header
  pub block_status : Header → ℕ → ℕ
  pub total_status : Header → ℕ
  pub wait_free : Header → ℕ → Rv × Header
  pub busywait_free : Header → ℕ → Rv × Header
  pub wait_filled : Header → ℕ → Rv × Header
  pub busywait_filled : Header → ℕ → Rv × Header
  pub set_free : Header → ℕ → Rv × Header
  pub set_filled : Header → ℕ → Rv × Header

-- s6_input_block_header_t
pub record InputHeader : Type 0 where
  pub mcnt : ℕ
  pub coarse_chan_id : ℕ
  pub num_coarse_chan : ℕ
  pub sid : ℕ
  pub time_sec : ℕ
  pub time_nsec : ℕ
  pub missed_pkts : ℕ → ℕ

-- s6_input_block_t, its data addressed by the byte. The bytes from n_data_bytes_per_block on stand for the
-- memory behind the data, which in src/s6_databuf.h is the next block, its header first. What is written
-- there is kept with this block and not carried into the next one: Pktsock.Bounds and Net.Bounds are about
-- the packets that write nothing there.
pub record InputBlock : Type 0 where
  pub header : InputHeader
  pub bytes : ℕ → ℕ

-- s6_output_block_header_t
pub record OutputHeader : Type 0 where
  pub mcnt : ℕ
  pub coarse_chan_id : ℕ
  pub num_coarse_chan : ℕ
  pub sid : ℕ
  pub time_sec : ℕ
  pub time_nsec : ℕ
  pub missed_pkts : ℕ → ℕ
  pub nhits : ℕ → ℕ

-- s6_output_block_t, without the arrays of the hits, which this version of the code never writes.
pub record OutputBlock : Type 0 where
  pub header : OutputHeader
  pub bytes : ℕ → ℕ

module _ (hp : Hashpipe) where
  -- s6_input_databuf_t; `n_block` is the field of its hashpipe_databuf_t.
  pub record InputDatabuf : Type 0 where
    pub header : hp.Header
    pub n_block : ℕ
    pub block : ℕ → InputBlock

  -- s6_output_databuf_t
  pub record OutputDatabuf : Type 0 where
    pub header : hp.Header
    pub n_block : ℕ
    pub block : ℕ → OutputBlock
