-- ===== src/Pktsock/Header.antt =====
-- get_header of src/s6_pktsock_thread.cpp.
use serendip6_reobs.Base.{ℕ, ◌+◌, ◌-◌, ◌*◌, ◌/◌, ◌%◌, ◌^◌}
use serendip6_reobs.Config.{Config, Source}
use serendip6_reobs.Packets.{PacketHeader}
use serendip6_reobs.Pktsock.{Frame, n_bytes_per_chan}

-- The 64-bit word at `p`, least byte first.
unfoldable pub word_le : (p : ℕ → ℕ) → ℕ
word_le p =
    p 0
    + 256 * (p 1 + 256 * (p 2 + 256 * (p 3 + 256 * (p 4 + 256 * (p 5 + 256 * (p 6 + 256 * p 7))))))

-- be64toh of the same word: greatest byte first.
unfoldable pub word_be : (p : ℕ → ℕ) → ℕ
word_be p =
    p 7
    + 256 * (p 6 + 256 * (p 5 + 256 * (p 4 + 256 * (p 3 + 256 * (p 2 + 256 * (p 1 + 256 * p 0))))))

module _ (c : Config) where
  -- (PKT_UDP_SIZE(p_frame) - overhead) / N_BYTES_PER_CHAN / N_SPECTRA_PER_PACKET. The division by the
  -- unsigned N_BYTES_PER_CHAN makes the difference an unsigned int.
  abbrev nchan_of : (udp_size overhead : ℕ) → ℕ
  nchan_of udp_size overhead =
      (udp_size + 2 ^ 32 - overhead) % 2 ^ 32 / n_bytes_per_chan c / c.n_spectra_per_packet

  -- The header of each observatory, from its first word. For SOURCE_FAST the raw sid holds the beam
  -- (from 1) in bits 1 to 5 and the polarization in bit 0; `(beam-1) * 2 + pol` is an int that
  -- becomes a uint64_t.
  unfoldable pub decode : Source → (udp_size le be : ℕ) → PacketHeader
  decode Source.source_s6 size le be = record {
    mcnt = be / 2 ^ 16;
    pchan = be / 2 ^ 4 % 2 ^ 12;
    nchan = nchan_of size (3 * 8);
    sid = be % 2 ^ 4;
  }
  decode Source.source_dibas size le be = record {
    mcnt = be % 2 ^ 56;
    pchan = be / 2 ^ 56 * c.n_coarse_chan % 2 ^ 64;
    nchan = nchan_of size (5 * 8);
    sid = be / 2 ^ 56;
  }
  decode Source.source_fast size le be =
      let raw_sid = le / 2 ^ 56 in
      let beam = raw_sid / 2 % 2 ^ 5 in
      let pol = raw_sid % 2 in
      record {
        mcnt = le % 2 ^ 56;
        pchan = 0;
        nchan = nchan_of size (3 * 8);
        sid = (beam * 2 + pol + 2 ^ 64 - 2) % 2 ^ 64;
      }

  unfoldable pub get_header : Frame → PacketHeader
  get_header f = decode c.source f.udp_size (word_le f.udp_data) (word_be f.udp_data)
