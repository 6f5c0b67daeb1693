-- ===== src/Net/Stored.antt =====
-- Where s6_memcpy puts the payload of a packet, in src/s6_net_thread.cpp.
use serendip6_reobs.Base.{
  ℕ, ◌+◌, ◌-◌, ◌*◌, ◌/◌, ◌%◌, ◌^◌, ◌≤◌, ◌<◌, ◌≡◌, ◌≢◌, ◌⊎◌, refl, sym, ok, arith, sub64, ◌∙◌, ap,
  leb, Bool-cases, inl, inr, ok-injective,
}
use native.Mathlib.Decide.{dec_lt}
use serendip6_reobs.Base.Arith.{mod_below, mul-le_right, div-eq, mod-eq}
use serendip6_reobs.Config.{Config}
use serendip6_reobs.Databuf.{Hashpipe, InputBlock}
use serendip6_reobs.Packets.{PacketHeader, no_block, memcpy_inside, memcpy_outside}
use serendip6_reobs.Net.{UdpPacket, NetState, nm, n_bytes_per_chan}
use serendip6_reobs.Net.Copy.{get_header, s6_memcpy-memcpy}
use serendip6_reobs.Net.Block.{calc_block_indexes}
use serendip6_reobs.Net.Process.{take_packet, process_packet, store_packet}
use serendip6_reobs.Net.Ring.{IsUsable, Inv, CallsSucceed, block_for_mcnt_lem}
use serendip6_reobs.Net.Finish.{finished}
use serendip6_reobs.Net.Invariant.{dispatch-expected}
use serendip6_reobs.Net.Trace.{IsUdpPacket, mcnt-get_header, prepared}

-- The place of a packet in the data of its block.
abbrev pub slot : Config → PacketHeader → ℕ
slot c h = (h.sid * nm c + h.mcnt % nm c) * c.n_coarse_chan * n_bytes_per_chan

-- The length of such a place.
abbrev pub slot_size : Config → ℕ
slot_size c = c.n_coarse_chan * n_bytes_per_chan

-- A packet of the size that one place holds, which is a whole number of the words that s6_memcpy copies.
pub record FitsSlot (c : Config) (p : UdpPacket) : Type 0 where
  pub size : p.packet_size ≡ 16 + slot_size c
  pub words : slot_size c % 32 ≡ 0
  pub small : slot_size c < 2 ^ 32

-- Such places start at a multiple of 8 bytes.
slot-aligned : (k w : ℕ) → w * 4 % 32 ≡ 0 → k * w * 4 / 8 * 8 ≡ k * w * 4
slot-aligned k w words = rw (eights) (omega arith)
  where
    eights : w ≡ 8 * (w / 8)
    eights = omega arith

module _ {c : Config} {p : UdpPacket} (fits : FitsSlot c p) (h : PacketHeader)
    (b : InputBlock) where
  open fits use {size, words, small}

  at_slot : slot c h / 8 * 8 ≡ slot c h
  at_slot = slot-aligned (h.sid * nm c + h.mcnt % nm c) c.n_coarse_chan words

  payload-store_packet :
      (i : ℕ) → i < slot_size c → (store_packet c h p b).bytes (slot c h + i) ≡ p.bytes (16 + i)
  unfolding store_packet
  payload-store_packet i in_slot =
      s6_memcpy-memcpy b.bytes _ p.bytes (8 + 8) (sub64 p.packet_size (8 + 8)) (slot c h + i)
      ∙ memcpy_inside b.bytes _ p.bytes (8 + 8) _ i _ (omega arith) (omega (arith, at_slot))

  rest-store_packet :
      (j : ℕ)
      → (j < slot c h) ⊎ (slot c h + slot_size c ≤ j)
      → (store_packet c h p b).bytes j ≡ b.bytes j
  unfolding store_packet
  rest-store_packet j apart =
      s6_memcpy-memcpy b.bytes _ p.bytes (8 + 8) (sub64 p.packet_size (8 + 8)) j
      ∙ memcpy_outside b.bytes _ p.bytes (8 + 8) _ j (elim apart [
        | inl before ↦ inl (omega (arith, at_slot))
        | inr behind ↦ inr (omega (arith, at_slot))
      ])

-- Packets of different beams, or of different mcnts of a block, have places that do not meet.
slots-apart :
    (c : Config) (h g : PacketHeader) (i : ℕ)
    → 0 < nm c
    → i < slot_size c
    → (h.sid ≢ g.sid) ⊎ (h.mcnt % nm c ≢ g.mcnt % nm c)
    → (slot c h + i < slot c g) ⊎ (slot c g + slot_size c ≤ slot c h + i)
slots-apart c h g i pos in_slot differ = elim (dec_lt (index h) (index g)) [
  | yes before ↦
      inl (omega (arith, mul-le_right (index h + 1) (index g) (slot_size c) (omega arith)))
  | no after ↦
      inr (omega (arith, mul-le_right (index g + 1) (index h) (slot_size c) (omega (arith, apart))))
]
  where
    index : PacketHeader → ℕ
    index e = e.sid * nm c + e.mcnt % nm c

    rest : (e : PacketHeader) → e.mcnt % nm c < nm c
    rest e = mod_below e.mcnt (nm c) pos

    beam_of : (e : PacketHeader) → index e / nm c ≡ e.sid
    beam_of e = div-eq (index e) e.sid (nm c) (omega arith) (omega (arith, rest e))

    mcnt_of : (e : PacketHeader) → index e % nm c ≡ e.mcnt % nm c
    mcnt_of e = mod-eq (index e) e.sid (nm c) (omega arith) (omega (arith, rest e)) ∙ omega arith

    apart : index h ≢ index g
    apart same = elim differ [
      | inl beams ↦ beams (sym (beam_of h) ∙ ap (λ n. n / nm c) same ∙ beam_of g)
      | inr mcnts ↦ mcnts (sym (mcnt_of h) ∙ ap (λ n. n % nm c) same ∙ mcnt_of g)
    ]

-- If the packets have the size of a place, and the places are whole numbers of the words that s6_memcpy
-- copies: of two packets of different beams or of different mcnts of a block, the first is still read
-- back byte for byte after the second is stored.
pub store_packet-kept :
    {c : Config} {p q : UdpPacket} (h g : PacketHeader) (b : InputBlock) (i : ℕ)
    → 0 < nm c
    → FitsSlot c p
    → FitsSlot c q
    → i < slot_size c
    → (h.sid ≢ g.sid) ⊎ (h.mcnt % nm c ≢ g.mcnt % nm c)
    → (store_packet c g q (store_packet c h p b)).bytes (slot c h + i) ≡ p.bytes (16 + i)
store_packet-kept {c} {p} {q} h g b i pos fits fits1 in_slot differ =
    rest-store_packet fits1 g (store_packet c h p b) (slot c h + i)
      (slots-apart c h g i pos in_slot differ)
    ∙ payload-store_packet fits h b i in_slot

-- The size of a packet that holds less than a header and a checksum wraps around, and the copy runs over
-- the whole block and what lies behind it: each of the next 2 ^ 63 bytes is overwritten.
pub store_packet-runt :
    (c : Config) (h : PacketHeader) (p : UdpPacket) (b : InputBlock) (i : ℕ)
    → p.packet_size < 16
    → i < 2 ^ 63
    → (store_packet c h p b).bytes (slot c h / 8 * 8 + i) ≡ p.bytes (16 + i)
unfolding store_packet
store_packet-runt c h p b i runt near =
    s6_memcpy-memcpy b.bytes _ p.bytes (8 + 8) (sub64 p.packet_size (8 + 8)) (slot c h / 8 * 8 + i)
    ∙ memcpy_inside b.bytes _ p.bytes (8 + 8) _ i _ (omega arith) refl

pub block-take_packet :
    (c : Config) {hp : Hashpipe} (b r : ℕ) (h : PacketHeader) (p : UdpPacket) (s : NetState hp)
    → h.sid < c.n_beams
    → (take_packet c b r h p s).0.db.block b ≡ store_packet c h p (s.db.block b)
unfolding take_packet calc_block_indexes
block-take_packet c b r h p s good = ground arith

-- In a usable build, while the hashpipe calls succeed, from a state that keeps the ring with block number
-- `seq` current: when process_packet returns on a packet of the size of a place whose mcnt is in that
-- block or the next, with a source ID in range, the payload stands at its place in the data of the block
-- of its mcnt, whether the packet has finished block `seq` or not.
pub process_packet-stored :
    {c : Config} (u : IsUsable c) {hp : Hashpipe} (k : CallsSucceed hp) (s : NetState hp)
    {t : NetState hp} {seq r : ℕ} (p : UdpPacket) (i : ℕ)
    → IsUdpPacket p
    → FitsSlot c p
    → Inv c (prepared c s) seq
    → process_packet c p s ≡ ok (t, r)
    → seq * nm c ≤ (get_header p).mcnt
    → (get_header p).mcnt < seq * nm c + 2 * nm c
    → (get_header p).sid < c.n_beams
    → i < slot_size c
    → (t.db.block ((get_header p).mcnt / nm c % c.n_input_blocks)).bytes (slot c (get_header p) + i)
      ≡ p.bytes (16 + i)
unfolding process_packet
process_packet-stored {c} u {hp} k s {t} {seq} {r} p i bytes fits ring e lo hi good in_slot =
    let expected =
      dispatch-expected u {s = prepared c s} {seq = seq} h p b ring k (mcnt-get_header p bytes) lo
        hi in
    elim (Bool-cases (leb (3 * (nm c / 2)) (h.mcnt - seq * nm c))) [
      | inl done ↦
          arrived (finished u seq h (prepared c s)) (seq * nm c)
            (rw (block_for_mcnt_lem u h.mcnt, expected, done) at e)
      | inr more ↦
          arrived (prepared c s) no_block (rw (block_for_mcnt_lem u h.mcnt, expected, more) at e)
    ]
  where
    h : PacketHeader
    h = get_header p

    b : ℕ
    b = h.mcnt / nm c % c.n_input_blocks

    arrived :
        (s1 : NetState hp) (r1 : ℕ)
        → ok (take_packet c b r1 h p s1) ≡ ok (t, r)
        → (t.db.block b).bytes (slot c h + i) ≡ p.bytes (16 + i)
    arrived s1 r1 taken =
        ap (λ (x : NetState hp × ℕ). (x.0.db.block b).bytes (slot c h + i))
          (sym (ok-injective taken))
        ∙ ap (λ (x : InputBlock). x.bytes (slot c h + i)) (block-take_packet c b r1 h p s1 good)
        ∙ payload-store_packet fits h (s1.db.block b) i in_slot
