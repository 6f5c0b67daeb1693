-- ===== src/Net/Copy.antt =====
-- s6_memcpy and get_header of src/s6_net_thread.cpp.
use serendip6_reobs.Base.{
  ℕ, zero, suc, ◌+◌, ◌-◌, ◌*◌, ◌/◌, ◌%◌, ◌^◌, ◌≡◌, ◌∙◌, ap, arith, leb, ltb, ◌&&◌, if◌then◌else◌,
}
use serendip6_reobs.Packets.{PacketHeader, memcpy}
use serendip6_reobs.Pktsock.Header.{word_be}
use serendip6_reobs.Net.{UdpPacket, n_bytes_per_chan}

-- The loop of s6_memcpy, `k` words of 256 bits left: two loads of 16 bytes, which make up the word that
-- one store writes.
copy_words : (k to from : ℕ) → (src dest : ℕ → ℕ) → ℕ → ℕ
copy_words zero to from src dest = dest
copy_words (suc k) to from src dest = copy_words k (to + 32) (from + 32) src (λ j.
    if leb to j && ltb j (to + 16)
    then src (from + (j - to))
    else if leb (to + 16) j && ltb j (to + 32)
    then src (from + 16 + (j - (to + 16)))
    else dest j)

-- s6_memcpy(dest + to, src + from, n_bytes)
pub s6_memcpy : (dest : ℕ → ℕ) (to : ℕ) (src : ℕ → ℕ) (from n_bytes : ℕ) → ℕ → ℕ
s6_memcpy dest to src from n_bytes = copy_words (n_bytes / 32) to from src dest

copy_words-memcpy :
    (k to from : ℕ) (src dest : ℕ → ℕ) (j : ℕ)
    → copy_words k to from src dest j ≡ memcpy dest to src from (32 * k) j
unfolding copy_words memcpy
copy_words-memcpy zero to from src dest j = ground arith
copy_words-memcpy (suc k) to from src dest j =
    copy_words-memcpy k (to + 32) (from + 32) src _ j
    ∙ ground (
      arith,
      ap src {x = from + 32 + (j - (to + 32))} {y = from + (j - to)},
      ap src {x = from + 16 + (j - (to + 16))} {y = from + (j - to)},
    )

-- s6_memcpy is memcpy of the whole words of 32 bytes: what is left over is not copied.
pub s6_memcpy-memcpy :
    (dest : ℕ → ℕ) (to : ℕ) (src : ℕ → ℕ) (from n_bytes j : ℕ)
    → s6_memcpy dest to src from n_bytes j ≡ memcpy dest to src from (n_bytes - n_bytes % 32) j
unfolding s6_memcpy
s6_memcpy-memcpy dest to src from n_bytes j =
    copy_words-memcpy (n_bytes / 32) to from src dest j
    ∙ ap (λ n. memcpy dest to src from n j) (omega arith)

-- The header word stands at data + 8. The number of channels is a quotient of signed numbers, and a
-- negative one becomes a uint64_t.
unfoldable pub get_header : UdpPacket → PacketHeader
get_header p =
    let raw_header = word_be (λ i. p.bytes (8 + i)) in
    record {
      mcnt = raw_header / 2 ^ 16;
      pchan = raw_header / 2 ^ 4 % 2 ^ 12;
      sid = raw_header % 2 ^ 4;
      nchan =
          if leb (2 * 8) p.packet_size
          then (p.packet_size - 2 * 8) / n_bytes_per_chan
          else (2 ^ 64 - (2 * 8 - p.packet_size) / n_bytes_per_chan) % 2 ^ 64;
    }
