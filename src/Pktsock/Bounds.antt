-- ===== src/Pktsock/Bounds.antt =====
-- For SOURCE_FAST: a packet whose payload fits in its place writes inside the data of a block only. In
-- src/s6_databuf.h the next block begins behind the data of a block, so this is what keeps the blocks apart.
use serendip6_reobs.Base.{
  ℕ, ◌+◌, ◌/◌, ◌%◌, ◌≤◌, ◌≡◌, inl, inr, sym, ok, arith, sub64, ◌∙◌, ap, leb, ltb, ==_cases, true,
  false, Bool-cases, ok-injective,
}
use serendip6_reobs.Config.{Config, fast_of, n_data_bytes_per_block}
use serendip6_reobs.Databuf.{Hashpipe, InputDatabuf, InputBlock}
use serendip6_reobs.Packets.{PacketHeader, memcpy_outside}
use serendip6_reobs.Window.{Window, expects, misses}
use serendip6_reobs.Pktsock.{Frame, PktState, nm, max_out_of_seq}
use serendip6_reobs.Pktsock.Header.{get_header}
use serendip6_reobs.Pktsock.Process.{
  take_packet, out_of_seq, dispatch, process_packet, store_packet, place, fast_offset,
}
use serendip6_reobs.Pktsock.Ring.{IsUsable, CallsSucceed, block_for_mcnt_lem}
use serendip6_reobs.Pktsock.Reset.{restarted}
use serendip6_reobs.Pktsock.Invariant.{
  dispatch-out_of_seq, counted, counted-Inv, reset_lem, reset_seq, reset_mcnt,
}
use serendip6_reobs.Pktsock.Layout.{fast_offset_bounds}
use serendip6_reobs.Pktsock.Owned.{take_packet-SameElsewhere, counted-block}
use serendip6_reobs.Pktsock.Stored.{block-take_packet}
use serendip6_reobs.Pktsock.Trace.{
  IsFrame, mcnt-get_header, prepared, shape, Follows, counted-strays,
}
use serendip6_reobs.Pktsock.Written.{take_packet-bad, expected-takes, ignored-block}

-- A frame of bytes whose payload is no longer than the 4096 bytes of its place, with its header word and
-- its checksum.
pub record Fits (f : Frame) : Type 0 where
  pub frame : IsFrame f
  pub lower : 16 ≤ f.udp_size
  pub upper : f.udp_size ≤ 4112

-- Nothing behind the data of a block has changed.
abbrev pub SameBehind : (n : ℕ) {hp : Hashpipe} → InputDatabuf hp → InputDatabuf hp → Type 0
SameBehind n db db1 =
    (b j : ℕ)
    → n_data_bytes_per_block (fast_of n) ≤ j
    → (db1.block b).bytes j ≡ (db.block b).bytes j

module _ (n : ℕ) (u : IsUsable (fast_of n)) {hp : Hashpipe} (k : CallsSucceed hp) where
  open u use {mcnts}

  store_packet-behind :
      (h : PacketHeader) (f : Frame) (b : InputBlock) (j : ℕ)
      → Fits f
      → n_data_bytes_per_block (fast_of n) ≤ j
      → (store_packet (fast_of n) h f b).bytes j ≡ b.bytes j
  unfolding store_packet place
  store_packet-behind h f b j fits far =
      memcpy_outside b.bytes (fast_offset (fast_of n) h.mcnt) f.udp_data 8 (sub64 f.udp_size 16) j (
        inr (
          omega (
            arith,
            fits.lower,
            fits.upper,
            far,
            fast_offset_bounds n h.mcnt 4096 4095 (omega (arith, mcnts)) (omega arith)
                (omega arith),
          )))

  take_packet-behind :
      (b r : ℕ) (h : PacketHeader) (f : Frame) (s : PktState hp)
      → Fits f
      → SameBehind n s.db (take_packet (fast_of n) b r h f s).0.db
  take_packet-behind b r h f s fits i j far =
      elim (Bool-cases (leb (fast_of n).n_source_nodes h.sid)) [
        | inl bad ↦ ap (λ db. (db.block i).bytes j) (take_packet-bad (fast_of n) b r h f s bad)
        | inr good ↦ elim (==_cases i b) [
          | inl (here, _) ↦ rw here (
              ap (λ (x : InputBlock). x.bytes j)
                (block-take_packet (fast_of n) b r h f s (ground (arith, good)))
              ∙ store_packet-behind h f (s.db.block b) j fits far)
          | inr (there, _) ↦
              ap (λ (x : InputBlock). x.bytes j) (take_packet-SameElsewhere u k s b r h f i there)
        ]
      ]

  -- A reset starts two blocks anew, and leaves their data.
  bytes-restarted :
      (q m : ℕ) (h : PacketHeader) (s : PktState hp) (i : ℕ)
      → ((restarted u q m h s).db.block i).bytes ≡ (s.db.block i).bytes
  bytes-restarted q m h s i = ground arith

  -- A packet that is not expected writes to no data.
  bytes-unexpected :
      (s : PktState hp) {t : PktState hp} {r : ℕ} {w : Window} (now : ℕ × ℕ) (f : Frame)
      → IsFrame f
      → Follows (fast_of n) (prepared (fast_of n) s) w
      → process_packet (fast_of n) now f s ≡ ok (t, r)
      → expects (shape (fast_of n)) w (get_header (fast_of n) f).mcnt ≡ false
      → (i : ℕ) → (t.db.block i).bytes ≡ (s.db.block i).bytes
  unfolding process_packet out_of_seq
  bytes-unexpected s {t} {r} {w} now f b fo e other i =
      elim (Bool-cases (misses (shape c) w h.mcnt)) [
        | inl near ↦
            ap (λ (x : InputBlock). x.bytes) (ignored-block u k s now f b fo e other (inl near) i)
        | inr far ↦ elim (Bool-cases (ltb (max_out_of_seq c) (w.strays + 1))) [
          | inl many ↦
              (let d =
                  dispatch-out_of_seq u now h f p fo.ring (mcnt-get_header c f b)
                    (ground (arith, other, far)) in
                let over : ltb (max_out_of_seq c) (counted u h s0).binfo.out_of_seq_cnt ≡ true =
                  rw (counted-strays u k h s0 ∙ ap (λ x. x + 1) fo.strays) many in
                let (done, _, _) =
                  reset_lem u h (counted-Inv u h fo.ring) (mcnt-get_header c f b) in
                rw (← ap (λ x. x.0) (ok-injective (rw (over, done) at (sym d ∙ called)))) (
                  bytes-restarted (reset_seq u h (counted u h s0)) (reset_mcnt u h (counted u h s0))
                    h (counted u h s0) i
                  ∙ ap (λ db. (db.block i).bytes) (counted-block u k s0 h)))
          | inr few ↦
              ap (λ (x : InputBlock). x.bytes) (ignored-block u k s now f b fo e other (inr few) i)
        ]
      ]
    where
      c : Config
      c = fast_of n

      h : PacketHeader
      h = get_header (fast_of n) f

      p : ℕ
      p = h.mcnt / nm (fast_of n) % (fast_of n).n_input_blocks

      s0 : PktState hp
      s0 = prepared (fast_of n) s

      called : dispatch c now (sub64 h.mcnt s0.binfo.mcnt_start) p h f s0 ≡ ok (t, r)
      called = rw (block_for_mcnt_lem u h.mcnt) at e

  pub process_packet-SameBehind :
      (s : PktState hp) {t : PktState hp} {r : ℕ} {w : Window} (now : ℕ × ℕ) (f : Frame)
      → Fits f
      → Follows (fast_of n) (prepared (fast_of n) s) w
      → process_packet (fast_of n) now f s ≡ ok (t, r)
      → SameBehind n s.db t.db
  process_packet-SameBehind s {t} {w = w} now f fits fo e i j far =
      elim (Bool-cases (expects (shape (fast_of n)) w (get_header (fast_of n) f).mcnt)) [
        | inl expected ↦
            (let (s1, r1, took, same) = expected-takes u k s now f fits.frame fo e expected in
              rw (← took) (
                take_packet-behind _ r1 (get_header (fast_of n) f) f s1 fits i j far
                ∙ ap (λ (x : ℕ → ℕ). x j) (same i)))
        | inr other ↦ ap (λ (x : ℕ → ℕ). x j) (bytes-unexpected s now f fits.frame fo e other i)
      ]
