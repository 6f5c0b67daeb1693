-- ===== src/Pktsock/Assembly.antt =====
-- What the blocks are meant to hold, for SOURCE_FAST: of each mcnt the payload of the last packet that was
-- accepted for it. The packets of a window that a reset gives up are forgotten.
use serendip6_reobs.Base.{
  ℕ, ◌+◌, ◌-◌, ◌*◌, ◌/◌, ◌%◌, ◌≤◌, ◌<◌, ◌≡◌, ◌⊎◌, inl, inr, sym, arith, ◌∙◌, ap, leb, ltb, true,
  false, ◌==◌, ==_cases, if◌then◌else◌, Option, some, none, update,
}
use serendip6_reobs.Base.Arith.{div-eq, mod-eq, succ-mod-ne}
use native.Mathlib.Decide.{dec_lt}
use serendip6_reobs.Config.{Config, fast_of}
use serendip6_reobs.Databuf.{Hashpipe, InputBlock}
use serendip6_reobs.Window.{Window, expects, misses, move}
use serendip6_reobs.Packets.{PacketHeader}
use serendip6_reobs.Pktsock.{Frame, PktState, nm, max_out_of_seq}
use serendip6_reobs.Pktsock.Header.{get_header}
use serendip6_reobs.Pktsock.Process.{take_packet, place, fast_offset, store_packet}
use serendip6_reobs.Pktsock.Ring.{IsUsable, CallsSucceed}
use serendip6_reobs.Pktsock.Layout.{place-fast_other}
use serendip6_reobs.Pktsock.Owned.{take_packet-SameElsewhere}
use serendip6_reobs.Pktsock.Stored.{block-take_packet, payload-store_packet}
use serendip6_reobs.Pktsock.Trace.{IsFrame, prepared, shape, Follows}

-- The payload of a frame starts behind its header word.
abbrev pub payload_of : Frame → ℕ → ℕ
payload_of f i = f.udp_data (8 + i)

-- A frame of a header word, a payload of 4096 bytes and a checksum.
pub record IsWhole (f : Frame) : Type 0 where
  pub frame : IsFrame f
  pub size : f.udp_size ≡ 4112

-- The window, and the payloads that were accepted in it or before it.
pub record Assembly : Type 0 where
  pub window : Window
  pub latest : ℕ → Option (ℕ → ℕ)

module _ (c : Config) where
  abbrev pub latest_after : Frame → Assembly → ℕ → Option (ℕ → ℕ)
  latest_after f a =
      let h = get_header c f in
      if expects (shape c) a.window h.mcnt
      then if leb c.n_source_nodes h.sid
        then a.latest
        else update a.latest h.mcnt (some (payload_of f))
      else if misses (shape c) a.window h.mcnt
      then a.latest
      else if ltb (max_out_of_seq c) (a.window.strays + 1)
      then (λ m. none)
      else a.latest

  abbrev pub receive : Frame → Assembly → Assembly
  receive f a = record {
    window = move (shape c) (get_header c f).mcnt a.window;
    latest = latest_after f a;
  }

-- The state has the window of the assembly, and its payloads at their places in the two blocks of the
-- window.
pub record HasPayloads (n : ℕ) {hp : Hashpipe} (s : PktState hp) (a : Assembly) : Type 0 where
  pub follows : Follows (fast_of n) (prepared (fast_of n) s) a.window
  pub below :
      (m : ℕ) (pay : ℕ → ℕ)
      → a.latest m ≡ some pay
      → m < a.window.seq * nm (fast_of n) + 2 * nm (fast_of n)
  pub placed :
      (m : ℕ) (pay : ℕ → ℕ)
      → a.latest m ≡ some pay
      → a.window.seq * nm (fast_of n) ≤ m
      → (i : ℕ) → i < 4096
      → (s.db.block (m / nm (fast_of n) % (fast_of n).n_input_blocks)).bytes
          (fast_offset (fast_of n) m + i)
        ≡ pay i

-- Two mcnts of one window at the same position of the buffer and at the same place of a block are equal.
same_place :
    (q m m1 w n : ℕ)
    → 2 ≤ n
    → q * w ≤ m
    → m < q * w + 2 * w
    → q * w ≤ m1
    → m1 < q * w + 2 * w
    → m / w % n ≡ m1 / w % n
    → m % w ≡ m1 % w
    → m ≡ m1
same_place q m m1 w n two lo hi lo1 hi1 block place =
    ground (arith, which m lo hi, which m1 lo1 hi1, succ-mod-ne q n two, block, place)
  where
    which :
        (x : ℕ)
        → q * w ≤ x
        → x < q * w + 2 * w
        → ((x / w % n ≡ q % n) × (x % w ≡ x - q * w) × (x < q * w + w))
          ⊎ ((x / w % n ≡ (q + 1) % n) × (x % w ≡ x - (q + 1) * w) × (q * w + w ≤ x))
    which x l h = elim (dec_lt x (q * w + w)) [
      | yes here ↦ inl (ap (λ y. y % n) (div-eq x q w l here), mod-eq x q w l here, here)
      | no there ↦ inr (
        ap (λ y. y % n) (div-eq x (q + 1) w (omega arith) (omega arith)),
        mod-eq x (q + 1) w (omega arith) (omega arith),
        omega arith,
      )
    ]

-- A packet that is expected leaves the window where it is or moves it one block on.
pub move-expected :
    (c : Config) (mcnt : ℕ) (w : Window)
    → expects (shape c) w mcnt ≡ true
    → (w.seq ≤ (move (shape c) mcnt w).seq) × ((move (shape c) mcnt w).seq ≤ w.seq + 1)
unfolding move
move-expected c mcnt w expected = ground (arith, expected)

-- One that is ignored leaves it where it is.
pub move-ignored :
    (c : Config) (mcnt : ℕ) (w : Window)
    → expects (shape c) w mcnt ≡ false
    → (misses (shape c) w mcnt ≡ true) ⊎ (ltb (max_out_of_seq c) (w.strays + 1) ≡ false)
    → (move (shape c) mcnt w).seq ≡ w.seq
unfolding move
move-ignored c mcnt w other (inl near) = ground (arith, other, near)
move-ignored c mcnt w other (inr few) = ground (arith, other, few)

module _ (n : ℕ) (u : IsUsable (fast_of n)) {hp : Hashpipe} (k : CallsSucceed hp) where
  open u use {mcnts}

  -- What take_packet leaves at the place of an mcnt of the window, if the source ID is in range.
  pub taken-good :
      (s : PktState hp) (q r : ℕ) (h : PacketHeader) (f : Frame) (m i : ℕ)
      → f.udp_size ≡ 4112
      → h.sid < (fast_of n).n_source_nodes
      → q * nm (fast_of n) ≤ h.mcnt
      → h.mcnt < q * nm (fast_of n) + 2 * nm (fast_of n)
      → q * nm (fast_of n) ≤ m
      → m < q * nm (fast_of n) + 2 * nm (fast_of n)
      → i < 4096
      → let b = m / nm (fast_of n) % (fast_of n).n_input_blocks in
        let place_of_m = fast_offset (fast_of n) m + i in
        let p = h.mcnt / nm (fast_of n) % (fast_of n).n_input_blocks in
        ((take_packet (fast_of n) p r h f s).0.db.block b).bytes place_of_m
        ≡ (if h.mcnt == m then payload_of f i else (s.db.block b).bytes place_of_m)
  unfolding store_packet
  taken-good s q r h f m i size good lo hi lo1 hi1 in_place = elim (==_cases h.mcnt m) [
    | inl (this, equal) ↦
        rw (equal, ← this)
          (ap (λ (x : InputBlock). x.bytes (fast_offset c h.mcnt + i))
              (block-take_packet c (h.mcnt / nm c % c.n_input_blocks) r h f s good)
            ∙ payload-store_packet n h f (s.db.block (h.mcnt / nm c % c.n_input_blocks)) i
                (omega (arith, size)) (omega (arith, size)) (omega (arith, size, in_place)))
    | inr (other, unequal) ↦
        rw unequal
          (elim (==_cases (m / nm c % c.n_input_blocks) (h.mcnt / nm c % c.n_input_blocks)) [
            | inl (here, _) ↦ rw here (
                ap (λ (x : InputBlock). x.bytes (fast_offset c m + i))
                  (block-take_packet c (h.mcnt / nm c % c.n_input_blocks) r h f s good)
                ∙ place-fast_other n m h f (s.db.block (h.mcnt / nm c % c.n_input_blocks)).bytes i
                    (omega (arith, mcnts)) (omega (arith, size)) (omega (arith, size)) in_place
                    (λ at_place. other (
                      same_place q h.mcnt m (nm c) c.n_input_blocks (omega arith) lo hi lo1 hi1
                        (sym here) (sym at_place))))
            | inr (there, _) ↦
                ap (λ (x : InputBlock). x.bytes (fast_offset c m + i))
                  (take_packet-SameElsewhere u k s (h.mcnt / nm c % c.n_input_blocks) r h f
                    (m / nm c % c.n_input_blocks) there)
          ])
  ]
    where
      c : Config
      c = fast_of n
