-- ===== src/Config.antt =====
-- src/s6_databuf.h: the compile-time constants of the three observatories, and the sizes that the
-- header derives from them. A build selects one of the three by -D SOURCE_...
use serendip6_reobs.Base.{ℕ, ◌*◌, ◌/◌}

-- The macro that selects the build.
pub data Source : Type 0 where
  source_s6 source_dibas source_fast : Source

-- The `#define`s of one branch.
pub record Config : Type 0 where
  pub source : Source
  pub n_pols_per_beam : ℕ
  pub n_bytes_per_sample : ℕ
  pub n_beams : ℕ
  pub n_beam_slots : ℕ
  pub n_coarse_chan : ℕ
  pub n_time_samples : ℕ
  pub n_fine_chan : ℕ
  pub n_spectra_per_packet : ℕ
  pub n_subspectra_per_spectrum : ℕ
  pub n_samples_per_block : ℕ
  pub n_bors : ℕ
  pub n_source_nodes : ℕ
  pub n_coarse_chan_per_bors : ℕ
  pub smooth_scale : ℕ
  pub n_input_blocks : ℕ
  pub n_debug_input_blocks : ℕ
  pub n_output_blocks : ℕ

-- SOURCE_S6: channelized complex input, Arecibo.
abbrev pub s6 : Config
s6 = record {
  source = Source.source_s6;
  n_pols_per_beam = 2;
  n_bytes_per_sample = 2;
  n_beams = 7;
  n_beam_slots = 8;
  n_coarse_chan = 320;
  n_time_samples = 128 * 1024;
  n_fine_chan = 128 * 1024;
  n_spectra_per_packet = 1;
  n_subspectra_per_spectrum = 1;
  n_samples_per_block = 128 * 1024 * 320 * 2 * 8;
  n_bors = 7;
  n_source_nodes = 7;
  n_coarse_chan_per_bors = 320;
  smooth_scale = 1024;
  n_input_blocks = 3;
  n_debug_input_blocks = 0;
  n_output_blocks = 3;
}

-- SOURCE_DIBAS: channelized complex input, Green Bank.
abbrev pub dibas : Config
dibas = record {
  source = Source.source_dibas;
  n_pols_per_beam = 2;
  n_bytes_per_sample = 2;
  n_beams = 1;
  n_beam_slots = 1;
  n_coarse_chan = 512;
  n_time_samples = 512 * 1024;
  n_fine_chan = 512 * 1024;
  n_spectra_per_packet = 4;
  n_subspectra_per_spectrum = 8;
  n_samples_per_block = 512 * 1024 * 512 * 2;
  n_bors = 8;
  n_source_nodes = 8;
  n_coarse_chan_per_bors = 512 / 8;
  smooth_scale = 1024;
  n_input_blocks = 3;
  n_debug_input_blocks = 0;
  n_output_blocks = 3;
}

-- SOURCE_FAST: non-channelized real input, `n` time samples in a block; N_POLS_PER_BEAM_TOTAL is 2.
-- The header's history has 256, 1024 * 1024 and 512 * 1024 * 1024.
abbrev pub fast_of : ℕ → Config
fast_of n = record {
  source = Source.source_fast;
  n_pols_per_beam = 1;
  n_bytes_per_sample = 1;
  n_beams = 19;
  n_beam_slots = 1;
  n_coarse_chan = 1;
  n_time_samples = n;
  n_fine_chan = n / 2;
  n_spectra_per_packet = 4096;
  n_subspectra_per_spectrum = 1;
  n_samples_per_block = n * 1 * 1;
  n_bors = 1;
  n_source_nodes = 19 * 2;
  n_coarse_chan_per_bors = 1 / 1;
  smooth_scale = 8 * 1024;
  n_input_blocks = 4;
  n_debug_input_blocks = 0;
  n_output_blocks = 3;
}

-- The branch as it stands: 256 time samples.
abbrev pub fast : Config
fast = fast_of 256

module _ (c : Config) where
  open c use {
    n_pols_per_beam, n_bytes_per_sample, n_coarse_chan, n_fine_chan, n_subspectra_per_spectrum,
    n_samples_per_block,
  }

  abbrev pub n_samples_per_beam : ℕ
  n_samples_per_beam = n_fine_chan * n_coarse_chan * n_pols_per_beam

  abbrev pub n_bytes_per_beam : ℕ
  n_bytes_per_beam = n_bytes_per_sample * n_samples_per_beam

  abbrev pub n_bytes_per_subspectrum : ℕ
  n_bytes_per_subspectrum =
      n_bytes_per_sample * n_coarse_chan / n_subspectra_per_spectrum * n_pols_per_beam

  abbrev pub n_data_bytes_per_block : ℕ
  n_data_bytes_per_block = n_bytes_per_sample * n_samples_per_block

  -- (int)(1.0 / MIN_POWER_THRESH * N_FINE_CHAN) with MIN_POWER_THRESH 10.0. The double next to 1 / 10
  -- lies above it by less than 10 ^ -17, so the product truncates to the quotient.
  abbrev pub max_gpu_hits : ℕ
  max_gpu_hits = n_fine_chan / 10

-- CACHE_ALIGNMENT, in bytes.
abbrev pub cache_alignment : ℕ
cache_alignment = 256
