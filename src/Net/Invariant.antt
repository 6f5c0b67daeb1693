-- ===== src/Net/Invariant.antt =====
-- Every packet keeps the ring, whichever branch of process_packet it takes.
use serendip6_reobs.Base.{
  ℕ, ◌+◌, ◌-◌, ◌*◌, ◌/◌, ◌%◌, ◌^◌, ◌≤◌, ◌<◌, ◌≡◌, ◌⊎◌, inl, inr, ap, ◌∙◌, Result, ok, ◌>>=◌, arith,
  sub64, leb, ◌==◌, if◌then◌else◌,
}
use serendip6_reobs.Base.Arith.{mod_below, mul-le_right, mul-le_left}
use native.Mathlib.Nat.{div-add-mod'}
use serendip6_reobs.Window.{advanced_seq, advanced_seq-mod}
use serendip6_reobs.Config.{Config}
use serendip6_reobs.Databuf.{Hashpipe}
use serendip6_reobs.Packets.{PacketHeader, Message, no_block}
use serendip6_reobs.Net.{UdpPacket, NetState, nm, say, late_pkt_mcnt_threshold}
use serendip6_reobs.Net.Block.{calc_block_indexes}
use serendip6_reobs.Net.Process.{
  take_packet, store_packet, late, reset, out_of_seq, dispatch, advanced_mcnt,
}
use serendip6_reobs.Net.Ring.{IsUsable, Inv, CallsSucceed, mcnt_limit, nm_small}
use serendip6_reobs.Net.Finish.{finished, finish_block_lem}
use serendip6_reobs.Net.Reset.{advanced_mcnt_lem, restarted, reset-restarted, restarted-Inv}

-- A packet that process_packet returned from: a state, a result, and the number of its current block.
abbrev pub Returns : (c : Config) {hp : Hashpipe} → Result (NetState hp × ℕ) → Type 0
Returns c {hp} r =
    (s : NetState hp) × (netmcnt : ℕ) × (seq : ℕ) × (r ≡ ok (s, netmcnt)) × Inv c s seq

pub netmcnt-take_packet :
    (c : Config) {hp : Hashpipe} (b r : ℕ) (h : PacketHeader) (f : UdpPacket) (s : NetState hp)
    → (take_packet c b r h f s).1 ≡ (if leb c.n_beams h.sid then no_block else r)
unfolding take_packet calc_block_indexes
netmcnt-take_packet c b r h f s = ground arith

pub last_filled-take_packet :
    (c : Config) {hp : Hashpipe} (b r : ℕ) (h : PacketHeader) (f : UdpPacket) (s : NetState hp)
    → (take_packet c b r h f s).0.last_filled ≡ s.last_filled
unfolding take_packet calc_block_indexes
last_filled-take_packet c b r h f s = ground arith

pub strays-take_packet :
    (c : Config) {hp : Hashpipe} (b r : ℕ) (h : PacketHeader) (f : UdpPacket) (s : NetState hp)
    → (take_packet c b r h f s).0.binfo.out_of_seq_cnt ≡ 0
unfolding take_packet calc_block_indexes
strays-take_packet c b r h f s = ground arith

module _ {c : Config} (u : IsUsable c) {hp : Hashpipe} where
  open u use {mcnts, blocks, small}

  pub take_packet-Inv :
      {s : NetState hp} {seq : ℕ} (pkt_block_i netmcnt : ℕ) (h : PacketHeader) (f : UdpPacket)
      → Inv c s seq
      → Inv c (take_packet c pkt_block_i netmcnt h f s).0 seq
  unfolding take_packet calc_block_indexes store_packet
  take_packet-Inv pkt_block_i netmcnt h f i = ground arith

  pub late-Inv :
      {s : NetState hp} {seq : ℕ} (h : PacketHeader) → Inv c s seq → Inv c (late c h s) seq
  unfolding late
  late-Inv h i = ground arith

  -- A packet of the current block or the next.
  pub dispatch-expected :
      {s : NetState hp} {seq : ℕ} (h : PacketHeader) (f : UdpPacket) (pkt_block_i : ℕ)
      → Inv c s seq
      → CallsSucceed hp
      → h.mcnt < 2 ^ 56
      → seq * nm c ≤ h.mcnt
      → h.mcnt < seq * nm c + 2 * nm c
      → dispatch c (sub64 h.mcnt s.binfo.mcnt_start) pkt_block_i h f s ≡ (
          if leb (3 * (nm c / 2)) (h.mcnt - seq * nm c)
          then ok (take_packet c pkt_block_i (seq * nm c) h f (finished u seq h s))
          else ok (take_packet c pkt_block_i no_block h f s))
  unfolding dispatch
  dispatch-expected {s} {seq} h f pkt_block_i i k small_mcnt lo hi =
      ground (arith, finish_block_lem u {s = s} {seq = seq} h i k small_mcnt, i.start)

  -- A packet that is late, but not too late.
  pub dispatch-late :
      {s : NetState hp} {seq : ℕ} (h : PacketHeader) (f : UdpPacket) (pkt_block_i : ℕ)
      → Inv c s seq
      → h.mcnt < seq * nm c
      → seq * nm c < h.mcnt + late_pkt_mcnt_threshold c
      → dispatch c (sub64 h.mcnt s.binfo.mcnt_start) pkt_block_i h f s ≡ ok (late c h s, no_block)
  unfolding dispatch
  dispatch-late {s} {seq} h f pkt_block_i i lo hi = ground (arith, i.start, i.bound)

  -- Any other packet.
  pub dispatch-out_of_seq :
      {s : NetState hp} {seq : ℕ} (h : PacketHeader) (f : UdpPacket) (pkt_block_i : ℕ)
      → Inv c s seq
      → h.mcnt < 2 ^ 56
      → (seq * nm c + 2 * nm c ≤ h.mcnt) ⊎ (h.mcnt + late_pkt_mcnt_threshold c ≤ seq * nm c)
      → dispatch c (sub64 h.mcnt s.binfo.mcnt_start) pkt_block_i h f s
        ≡ (out_of_seq c pkt_block_i h s >>= λ s1. ok (s1, no_block))
  unfolding dispatch
  dispatch-out_of_seq {s} {seq} h f pkt_block_i i small_mcnt (inl far) =
      ground (arith, i.start, i.bound, nm_small u, mul-le_left (2 * nm c) 1 c.n_input_blocks)
  dispatch-out_of_seq {s} {seq} h f pkt_block_i i small_mcnt (inr old) =
      ground (arith, i.start, i.bound, nm_small u, mul-le_left (2 * nm c) 1 c.n_input_blocks)

  -- The state after the message and the count of an out-of-sequence packet.
  abbrev pub counted : PacketHeader → NetState hp → NetState hp
  counted h s =
      let s1 =
        if s.binfo.mcnt_start == 0
        then s
        else say (Message.out_of_seq_mcnt h.mcnt s.binfo.mcnt_start) s in
      record s1 { binfo = record (s1.binfo) { out_of_seq_cnt = s1.binfo.out_of_seq_cnt + 1 } }

  pub counted-Inv :
      {s : NetState hp} {seq : ℕ} (h : PacketHeader) → Inv c s seq → Inv c (counted h s) seq
  counted-Inv h i = ground arith

  -- The number of the block that a reset at this packet starts with.
  abbrev pub reset_seq : PacketHeader → NetState hp → ℕ
  reset_seq h s = advanced_seq c.n_input_blocks s.binfo.block_i (h.mcnt / nm c)

  abbrev pub reset_mcnt : PacketHeader → NetState hp → ℕ
  reset_mcnt h s = reset_seq h s * nm c + h.mcnt % nm c

  -- In a usable build, from a state that keeps the ring, a reset at a packet whose mcnt has 56 bits
  -- returns, and keeps the ring with block number `reset_seq` current, which lies where the current
  -- block lay: the blocks of the buffer are filled in order across it.
  pub reset_lem :
      {s : NetState hp} {seq : ℕ} (h : PacketHeader)
      → Inv c s seq
      → h.mcnt < 2 ^ 56
      → (reset c (h.mcnt / nm c % c.n_input_blocks) h s
          ≡ ok (restarted u (reset_seq h s) (reset_mcnt h s) h s))
        × Inv c (restarted u (reset_seq h s) (reset_mcnt h s) h s) (reset_seq h s)
        × (reset_seq h s % c.n_input_blocks ≡ s.binfo.block_i)
  reset_lem {s} {seq} h i small_mcnt = (
    reset-restarted u s h (p % n) q r
        (adv ∙ ap (λ k. q * nm c + k) (omega (arith, div-add-mod' h.mcnt (nm c)))) (omega arith)
        in_reach,
    restarted-Inv u s h q r i.started (omega (arith, i.order, i.current, place.0)) in_reach i.quiet,
    place.0,
  )
    where
      open c use {n_input_blocks as n}

      p : ℕ
      p = h.mcnt / nm c

      q : ℕ
      q = reset_seq h s

      r : ℕ
      r = h.mcnt % nm c

      in_ring : s.binfo.block_i < n
      in_ring = omega (arith, mod_below seq n (omega arith), i.current)

      place : (q % n ≡ s.binfo.block_i) × (p ≤ q) × (q < p + n)
      place = advanced_seq-mod n s.binfo.block_i p in_ring

      adv : advanced_mcnt c s.binfo.block_i (p % n) h.mcnt ≡ q * nm c + (h.mcnt - p * nm c)
      adv =
          advanced_mcnt_lem u s.binfo.block_i p h.mcnt in_ring small_mcnt
            (omega (arith, div-add-mod' h.mcnt (nm c))) (omega (arith, div-add-mod' h.mcnt (nm c)))

      in_reach : q * nm c ≤ mcnt_limit c
      in_reach =
          omega (
            arith,
            mul-le_right q (p + n) (nm c) (omega (arith, place)),
            div-add-mod' h.mcnt (nm c),
          )
