-- ===== src/Pktsock/Stored.antt =====
-- That a packet's payload reaches its block.
use serendip6_reobs.Base.{
  ℕ, ◌+◌, ◌-◌, ◌*◌, ◌/◌, ◌%◌, ◌^◌, ◌≤◌, ◌<◌, ◌≡◌, refl, sym, ok, arith, sub64, ◌∙◌, ap, leb,
  Bool-cases, inl, inr, ok-injective,
}
use serendip6_reobs.Config.{Config, fast_of}
use serendip6_reobs.Databuf.{Hashpipe, InputBlock}
use serendip6_reobs.Packets.{PacketHeader, no_block, memcpy_inside}
use serendip6_reobs.Pktsock.{Frame, PktState, nm}
use serendip6_reobs.Pktsock.Header.{get_header}
use serendip6_reobs.Pktsock.Block.{calc_block_indexes}
use serendip6_reobs.Pktsock.Process.{take_packet, process_packet, store_packet, place, fast_offset}
use serendip6_reobs.Pktsock.Ring.{IsUsable, Inv, CallsSucceed, block_for_mcnt_lem}
use serendip6_reobs.Pktsock.Finish.{finished}
use serendip6_reobs.Pktsock.Invariant.{dispatch-expected}
use serendip6_reobs.Pktsock.Trace.{IsFrame, mcnt-get_header, prepared}

-- A packet with a source ID in range changes its block as store_packet says.
pub block-take_packet :
    (c : Config) {hp : Hashpipe} (b r : ℕ) (h : PacketHeader) (f : Frame) (s : PktState hp)
    → h.sid < c.n_source_nodes
    → (take_packet c b r h f s).0.db.block b ≡ store_packet c h f (s.db.block b)
unfolding take_packet calc_block_indexes
block-take_packet c b r h f s good = ground arith

-- In the data of that block, the payload of a SOURCE_FAST packet stands at its place.
pub payload-store_packet :
    (n : ℕ) (h : PacketHeader) (f : Frame) (b : InputBlock) (i : ℕ)
    → 16 ≤ f.udp_size
    → f.udp_size < 2 ^ 16
    → i < f.udp_size - 16
    → (store_packet (fast_of n) h f b).bytes (fast_offset (fast_of n) h.mcnt + i)
      ≡ f.udp_data (8 + i)
unfolding store_packet place
payload-store_packet n h f b i lo hi in_payload =
    memcpy_inside b.bytes (fast_offset (fast_of n) h.mcnt) f.udp_data 8 (sub64 f.udp_size 16) i _
      (omega arith) refl

module _ (n : ℕ) (u : IsUsable (fast_of n)) {hp : Hashpipe} (k : CallsSucceed hp) where
  -- In a usable SOURCE_FAST build, while the hashpipe calls succeed, from a state that keeps the ring
  -- with block number `seq` current: when process_packet returns on a frame of bytes whose mcnt is in
  -- that block or the next, with a source ID in range, the payload stands at its place in the data of the
  -- block of its mcnt, whether the packet has finished block `seq` or not.
  pub process_packet-stores :
      (s : PktState hp) {t : PktState hp} {seq r : ℕ} (now : ℕ × ℕ) (f : Frame) (i : ℕ)
      → IsFrame f
      → Inv (fast_of n) (prepared (fast_of n) s) seq
      → process_packet (fast_of n) now f s ≡ ok (t, r)
      → seq * nm (fast_of n) ≤ (get_header (fast_of n) f).mcnt
      → (get_header (fast_of n) f).mcnt < seq * nm (fast_of n) + 2 * nm (fast_of n)
      → (get_header (fast_of n) f).sid < (fast_of n).n_source_nodes
      → 16 ≤ f.udp_size
      → f.udp_size < 2 ^ 16
      → i < f.udp_size - 16
      → let m = (get_header (fast_of n) f).mcnt in
        (t.db.block (m / nm (fast_of n) % (fast_of n).n_input_blocks)).bytes
          (fast_offset (fast_of n) m + i)
        ≡ f.udp_data (8 + i)
  unfolding process_packet
  process_packet-stores s {t} {seq} {r} now f i bytes ring e lo hi good lo' hi' in_payload =
      let expected =
        dispatch-expected u {s = prepared c s} {seq = seq} now h f b ring k
          (mcnt-get_header c f bytes) lo hi in
      elim (Bool-cases (leb (3 * (nm c / 2)) (h.mcnt - seq * nm c))) [
        | inl done ↦
            arrived (finished u seq now h (prepared c s)) (seq * nm c)
              (rw (block_for_mcnt_lem u h.mcnt, expected, done) at e)
        | inr more ↦
            arrived (prepared c s) no_block (rw (block_for_mcnt_lem u h.mcnt, expected, more) at e)
      ]
    where
      c : Config
      c = fast_of n

      h : PacketHeader
      h = get_header c f

      b : ℕ
      b = h.mcnt / nm c % c.n_input_blocks

      arrived :
          (s1 : PktState hp) (r1 : ℕ)
          → ok (take_packet c b r1 h f s1) ≡ ok (t, r)
          → (t.db.block b).bytes (fast_offset c h.mcnt + i) ≡ f.udp_data (8 + i)
      arrived s1 r1 taken =
          ap (λ (p : PktState hp × ℕ). (p.0.db.block b).bytes (fast_offset c h.mcnt + i))
            (sym (ok-injective taken))
          ∙ ap (λ (x : InputBlock). x.bytes (fast_offset c h.mcnt + i))
              (block-take_packet c b r1 h f s1 good)
          ∙ payload-store_packet n h f (s1.db.block b) i lo' hi' in_payload
