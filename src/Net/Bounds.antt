-- ===== src/Net/Bounds.antt =====
-- A packet that is no longer than its place, and no shorter than a header and a checksum, makes
-- process_packet of src/s6_net_thread.cpp write inside the data of a block only. In src/s6_databuf.h the next
-- block begins behind them, so this is what keeps the blocks apart.
use serendip6_reobs.Base.{
  ℕ, ◌+◌, ◌-◌, ◌*◌, ◌/◌, ◌%◌, ◌^◌, ◌≤◌, ◌<◌, ◌≡◌, ◌≢◌, ◌⊎◌, inl, inr, sym, ok, arith, sub64, ◌∙◌,
  ap, leb, ltb, ==_cases, true, Bool-cases, ok-injective, >>=-eq-ok,
}
use native.Mathlib.Decide.{dec_lt}
use serendip6_reobs.Base.Arith.{mod_below}
use serendip6_reobs.Config.{Config, s6, n_data_bytes_per_block}
use serendip6_reobs.Databuf.{Hashpipe, InputDatabuf, InputBlock}
use serendip6_reobs.Databuf.Input.{s6_input_databuf_busywait_free, s6_input_databuf_set_filled}
use serendip6_reobs.Packets.{PacketHeader, memcpy_outside, no_block}
use serendip6_reobs.Net.{
  UdpPacket, NetState, nm, n_bytes_per_chan, max_out_of_seq, late_pkt_mcnt_threshold,
}
use serendip6_reobs.Net.Copy.{get_header, s6_memcpy-memcpy}
use serendip6_reobs.Net.Block.{calc_block_indexes}
use serendip6_reobs.Net.Process.{
  take_packet, late, out_of_seq, dispatch, process_packet, store_packet,
}
use serendip6_reobs.Net.Ring.{IsUsable, Inv, CallsSucceed, block_for_mcnt_lem}
use serendip6_reobs.Net.Reset.{restarted}
use serendip6_reobs.Net.Finish.{finished}
use serendip6_reobs.Net.Invariant.{
  dispatch-expected, dispatch-late, dispatch-out_of_seq, counted, counted-Inv, reset_lem, reset_seq,
  reset_mcnt,
}
use serendip6_reobs.Net.Stored.{slot, slot_size, block-take_packet}
use serendip6_reobs.Net.Trace.{IsUdpPacket, mcnt-get_header, prepared}
use serendip6_reobs.Net.Untouched.{slot-end}

-- A packet of bytes with a payload that is no longer than its place.
pub record Fits (c : Config) (p : UdpPacket) : Type 0 where
  pub bytes : IsUdpPacket p
  pub lower : 16 ≤ p.packet_size
  pub upper : p.packet_size ≤ 16 + slot_size c
  pub small : slot_size c < 2 ^ 32

-- Nothing behind the places of the packets in the data of a block has changed. In SOURCE_S6 these places
-- end where the data end, or before.
abbrev pub SameBehind : (c : Config) {hp : Hashpipe} → InputDatabuf hp → InputDatabuf hp → Type 0
SameBehind c db db1 =
    (b j : ℕ)
    → c.n_beams * nm c * c.n_coarse_chan * n_bytes_per_chan ≤ j
    → (db1.block b).bytes j ≡ (db.block b).bytes j

store_packet-behind :
    (c : Config) (h : PacketHeader) (p : UdpPacket) (b : InputBlock) (j : ℕ)
    → Fits c p
    → 0 < nm c
    → h.sid < c.n_beams
    → c.n_beams * nm c * c.n_coarse_chan * n_bytes_per_chan ≤ j
    → (store_packet c h p b).bytes j ≡ b.bytes j
unfolding store_packet
store_packet-behind c h p b j fits pos beam far =
    s6_memcpy-memcpy b.bytes (slot c h / 8 * 8) p.bytes (8 + 8) (sub64 p.packet_size (8 + 8)) j
    ∙ memcpy_outside b.bytes (slot c h / 8 * 8) p.bytes (8 + 8) _ j (
        inr (
          omega (
            arith,
            far,
            fits.lower,
            fits.upper,
            fits.small,
            slot-end h.sid (h.mcnt % nm c) c.n_beams (nm c) c.n_coarse_chan beam
                (mod_below h.mcnt (nm c) pos),
          )))

take_packet-bad :
    (c : Config) {hp : Hashpipe} (b r : ℕ) (h : PacketHeader) (p : UdpPacket) (s : NetState hp)
    → leb c.n_beams h.sid ≡ true
    → (take_packet c b r h p s).0.db ≡ s.db
unfolding take_packet calc_block_indexes
take_packet-bad c b r h p s bad = ground (arith, bad)

take_packet-other :
    (c : Config) {hp : Hashpipe} (b r : ℕ) (h : PacketHeader) (p : UdpPacket) (s : NetState hp)
    (i : ℕ)
    → i ≢ b
    → (take_packet c b r h p s).0.db.block i ≡ s.db.block i
unfolding take_packet calc_block_indexes
take_packet-other c b r h p s i there = ground arith

late-db : (c : Config) {hp : Hashpipe} (h : PacketHeader) (s : NetState hp) → (late c h s).db ≡ s.db
unfolding late
late-db c h s = ground arith

module _ {c : Config} (u : IsUsable c) {hp : Hashpipe} (k : CallsSucceed hp) where
  open u use {mcnts}

  take_packet-behind :
      (b r : ℕ) (h : PacketHeader) (p : UdpPacket) (s : NetState hp)
      → Fits c p
      → SameBehind c s.db (take_packet c b r h p s).0.db
  take_packet-behind b r h p s fits i j far = elim (Bool-cases (leb c.n_beams h.sid)) [
    | inl bad ↦ ap (λ db. (db.block i).bytes j) (take_packet-bad c b r h p s bad)
    | inr good ↦ elim (==_cases i b) [
      | inl (here, _) ↦ rw here (
          ap (λ (x : InputBlock). x.bytes j) (block-take_packet c b r h p s (ground (arith, good)))
          ∙ store_packet-behind c h p (s.db.block b) j fits (omega arith) (ground (arith, good))
              far)
      | inr (there, _) ↦ ap (λ (x : InputBlock). x.bytes j) (take_packet-other c b r h p s i there)
    ]
  ]

  bytes-finished :
      (seq : ℕ) (h : PacketHeader) (s : NetState hp) (i : ℕ)
      → ((finished u seq h s).db.block i).bytes ≡ (s.db.block i).bytes
  unfolding s6_input_databuf_busywait_free s6_input_databuf_set_filled
  bytes-finished seq h s i = ground arith

  bytes-restarted :
      (q m : ℕ) (h : PacketHeader) (s : NetState hp) (i : ℕ)
      → ((restarted u q m h s).db.block i).bytes ≡ (s.db.block i).bytes
  bytes-restarted q m h s i = ground arith

  counted-db : (h : PacketHeader) (s : NetState hp) → (counted u h s).db ≡ s.db
  counted-db h s = ground arith

  bytes-out_of_seq :
      (s : NetState hp) {t : NetState hp} {seq : ℕ} (h : PacketHeader)
      → Inv c s seq
      → h.mcnt < 2 ^ 56
      → out_of_seq c (h.mcnt / nm c % c.n_input_blocks) h s ≡ ok t
      → (i : ℕ) → (t.db.block i).bytes ≡ (s.db.block i).bytes
  unfolding out_of_seq
  bytes-out_of_seq s {t} h ring small_mcnt e i =
      elim (Bool-cases (ltb (max_out_of_seq c) (counted u h s).binfo.out_of_seq_cnt)) [
        | inl more ↦
            (let (done, _, _) = reset_lem u h (counted-Inv u h ring) small_mcnt in
              rw (← ok-injective (rw (more, done) at e)) (
                bytes-restarted (reset_seq u h (counted u h s)) (reset_mcnt u h (counted u h s)) h
                  (counted u h s) i
                ∙ ap (λ db. (db.block i).bytes) (counted-db h s)))
        | inr few ↦
            rw (← ok-injective (rw few at e)) (ap (λ db. (db.block i).bytes) (counted-db h s))
      ]

  pub process_packet-SameBehind :
      (s : NetState hp) {t : NetState hp} {r seq : ℕ} (p : UdpPacket)
      → Fits c p
      → Inv c (prepared c s) seq
      → process_packet c p s ≡ ok (t, r)
      → SameBehind c s.db t.db
  unfolding process_packet
  process_packet-SameBehind s {t} {r} {seq} p fits ring e i j far =
      elim (dec_lt h.mcnt (seq * nm c)) [
        | yes before ↦ elim (dec_lt (seq * nm c) (h.mcnt + late_pkt_mcnt_threshold c)) [
          | yes near ↦
              rw
                (← ap (λ x. x.0)
                  (ok-injective (sym (dispatch-late u h p b ring before near) ∙ called)))
                (ap (λ db. (db.block i).bytes j) (late-db c h s0))
          | no late_too ↦ strayed (inr (omega arith))
        ]
        | no after ↦ elim (dec_lt h.mcnt (seq * nm c + 2 * nm c)) [
          | yes near ↦ expected (omega arith) near
          | no beyond ↦ strayed (inl (omega arith))
        ]
      ]
    where
      h : PacketHeader
      h = get_header p

      b : ℕ
      b = h.mcnt / nm c % c.n_input_blocks

      s0 : NetState hp
      s0 = prepared c s

      m : h.mcnt < 2 ^ 56
      m = mcnt-get_header p fits.bytes

      called : dispatch c (sub64 h.mcnt s0.binfo.mcnt_start) b h p s0 ≡ ok (t, r)
      called = rw (block_for_mcnt_lem u h.mcnt) at e

      strayed :
          (seq * nm c + 2 * nm c ≤ h.mcnt) ⊎ (h.mcnt + late_pkt_mcnt_threshold c ≤ seq * nm c)
          → (t.db.block i).bytes j ≡ (s.db.block i).bytes j
      strayed where_to =
          let d = dispatch-out_of_seq u h p b ring m where_to in
          let (t1, got, e1) =
            >>=-eq-ok (out_of_seq c b h s0) (λ s1. ok (s1, no_block)) (sym d ∙ called) in
          rw (← ap (λ x. x.0) (ok-injective e1))
            (ap (λ (x : ℕ → ℕ). x j) (bytes-out_of_seq s0 h ring m got i))

      expected :
          seq * nm c ≤ h.mcnt
          → h.mcnt < seq * nm c + 2 * nm c
          → (t.db.block i).bytes j ≡ (s.db.block i).bytes j
      expected lo hi =
          let takes = dispatch-expected u h p b ring k m lo hi in
          elim (Bool-cases (leb (3 * (nm c / 2)) (h.mcnt - seq * nm c))) [
            | inl done ↦ rw (← ap (λ x. x.0) (ok-injective (rw (takes, done) at called))) (
                take_packet-behind b (seq * nm c) h p (finished u seq h s0) fits i j far
                ∙ ap (λ (x : ℕ → ℕ). x j) (bytes-finished seq h s0 i))
            | inr more ↦
                rw (← ap (λ x. x.0) (ok-injective (rw (takes, more) at called)))
                  (take_packet-behind b no_block h p s0 fits i j far)
          ]

-- In SOURCE_S6 the places of the packets end within the data of a block.
places-s6 : s6.n_beams * nm s6 * s6.n_coarse_chan * n_bytes_per_chan ≤ n_data_bytes_per_block s6
places-s6 = omega arith
