-- ===== src/Pktsock/Layout.antt =====
-- The layout of a SOURCE_FAST packet: its header word, and where its payload lies in a block.
use serendip6_reobs.Base.{
  ℕ, ◌+◌, ◌-◌, ◌*◌, ◌/◌, ◌%◌, ◌^◌, ◌≤◌, ◌<◌, ◌≡◌, ◌≢◌, inl, inr, refl, arith, sub64, ◌∙◌, ap, ltb,
  if◌then◌else◌, false,
}
use serendip6_reobs.Base.Arith.{mod_below}
use native.Mathlib.Decide.{dec_lt}
use serendip6_reobs.Config.{Source, fast_of, n_data_bytes_per_block}
use serendip6_reobs.Packets.{PacketHeader, memcpy_inside, memcpy_outside}
use serendip6_reobs.Pktsock.{Frame, nm}
use serendip6_reobs.Pktsock.Header.{get_header, decode, word_le}
use serendip6_reobs.Pktsock.Process.{place, fast_offset}
use serendip6_reobs.Pktsock.Run.{wrong_size}

-- The frame that a SOURCE_FAST source sends: a header word, then the payload. `spare` are the two bits
-- of the raw source ID above the beam.
abbrev pub fast_word : (mcnt spare beam pol : ℕ) → ℕ
fast_word mcnt spare beam pol = mcnt + 2 ^ 56 * (spare * 64 + beam * 2 + pol)

abbrev pub fast_frame : (udp_size word : ℕ) → (ℕ → ℕ) → Frame
fast_frame udp_size word payload = record {
  udp_size = udp_size;
  udp_data = λ i. if ltb i 8 then word / 256 ^ i % 256 else payload (i - 8);
}

word_le-fast_frame :
    (size w : ℕ) (payload : ℕ → ℕ) → w < 2 ^ 64 → word_le (fast_frame size w payload).udp_data ≡ w
unfolding word_le
word_le-fast_frame size w payload h = omega arith

-- get_header reads back what a SOURCE_FAST source wrote, for an mcnt of 56 bits, a beam of five bits,
-- and whatever the two spare bits are: the mcnt, and a source ID made of the beam, if it is not 0,
-- counted from 0, and the polarization. The ID is in range exactly for the beams 1 to 19.
pub get_header-fast_frame :
    (n size mcnt spare beam pol : ℕ) (payload : ℕ → ℕ)
    → mcnt < 2 ^ 56
    → spare < 4
    → beam < 32
    → pol < 2
    → let h = get_header (fast_of n) (fast_frame size (fast_word mcnt spare beam pol) payload) in
      (h.mcnt ≡ mcnt)
      × (h.sid % 2 ≡ pol)
      × (1 ≤ beam → h.sid / 2 + 1 ≡ beam)
      × (1 ≤ beam → beam ≤ 19 → h.sid < (fast_of n).n_source_nodes)
      × (h.sid < (fast_of n).n_source_nodes → (1 ≤ beam) × (beam ≤ 19))
unfolding get_header decode
get_header-fast_frame n size mcnt spare beam pol payload hm hs hb hp =
    rw (word_le-fast_frame size (fast_word mcnt spare beam pol) payload (omega arith)) (omega arith)

-- If a block has room for a packet, the bytes of a payload of at most 4096 bytes stay within the data
-- of the block.
pub fast_offset_bounds :
    (n mcnt size i : ℕ)
    → 4096 ≤ n
    → size ≤ 4096
    → i < size
    → fast_offset (fast_of n) mcnt + i < n_data_bytes_per_block (fast_of n)
fast_offset_bounds n mcnt size i h hs hi = omega (arith, mod_below mcnt (n / 4096) (omega arith))

-- A packet with a payload of at most 4096 bytes leaves the places of other mcnts as they are.
pub place-fast_other :
    (n m : ℕ) (g : PacketHeader) (e : Frame) (bytes : ℕ → ℕ) (i : ℕ)
    → 4096 ≤ n
    → 16 ≤ e.udp_size
    → e.udp_size ≤ 4112
    → i < 4096
    → m % nm (fast_of n) ≢ g.mcnt % nm (fast_of n)
    → place (fast_of n) Source.source_fast g e bytes (fast_offset (fast_of n) m + i)
      ≡ bytes (fast_offset (fast_of n) m + i)
unfolding place
place-fast_other n m g e bytes i big lo hi in_place ne =
    memcpy_outside bytes (fast_offset (fast_of n) g.mcnt) e.udp_data 8 (sub64 e.udp_size 16)
      (fast_offset (fast_of n) m + i)
      (elim (dec_lt (m % (n / 4096)) (g.mcnt % (n / 4096))) [
        | yes before ↦ inl (omega arith)
        | no after ↦ inr (omega arith)
      ])

-- If a block has room for a packet: of two packets with payloads of at most 4096 bytes and with mcnts
-- at different places of a block, the first is still read back byte for byte after the second is
-- stored.
pub place-fast :
    (n : ℕ) (h g : PacketHeader) (f e : Frame) (bytes : ℕ → ℕ) (i : ℕ)
    → 4096 ≤ n
    → 16 ≤ f.udp_size
    → f.udp_size ≤ 4112
    → 16 ≤ e.udp_size
    → e.udp_size ≤ 4112
    → i < f.udp_size - 16
    → h.mcnt % nm (fast_of n) ≢ g.mcnt % nm (fast_of n)
    → place
        (fast_of n)
        Source.source_fast
        g
        e
        (place (fast_of n) Source.source_fast h f bytes)
        (fast_offset (fast_of n) h.mcnt + i)
      ≡ f.udp_data (8 + i)
unfolding place
place-fast n h g f e bytes i big lo hi lo' hi' in_payload ne =
    place-fast_other n h.mcnt g e (place (fast_of n) Source.source_fast h f bytes) i big lo' hi'
      (omega arith) ne
    ∙ memcpy_inside bytes (fast_offset (fast_of n) h.mcnt) f.udp_data 8 (sub64 f.udp_size 16) i _
        (omega arith) refl

-- The size test of the main loop lets frames through whose payload is longer than the 4096 bytes of a
-- packet's place. If the mcnt is the last of a block of `w` packets, what is longer lands behind the
-- data of the block.
pub place-overrun :
    (w : ℕ) (h : PacketHeader) (f : Frame) (bytes : ℕ → ℕ) (i : ℕ)
    → 0 < w
    → i < f.udp_size - 16 - 4096
    → wrong_size (fast_of (w * 4096)) f ≡ false
    → h.mcnt % w ≡ w - 1
    → place
        (fast_of (w * 4096))
        Source.source_fast
        h
        f
        bytes
        (n_data_bytes_per_block (fast_of (w * 4096)) + i)
      ≡ f.udp_data (8 + 4096 + i)
unfolding place wrong_size
place-overrun w h f bytes i pos in_rest accepted last =
    memcpy_inside bytes (fast_offset (fast_of (w * 4096)) h.mcnt) f.udp_data 8 (sub64 f.udp_size 16)
      (4096 + i) _ (ground arith) end_of_block
    ∙ ap f.udp_data (omega arith)
  where
    places : w * 4096 / 4096 ≡ w
    places = omega arith

    end_of_block :
        n_data_bytes_per_block (fast_of (w * 4096)) + i
        ≡ fast_offset (fast_of (w * 4096)) h.mcnt + (4096 + i)
    end_of_block = rw (places, last) (omega arith)
