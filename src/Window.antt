-- ===== src/Window.antt =====
-- What the packet threads promise to the readers of their ring, with the blocks, the headers and the
-- messages forgotten: a window of two neighbouring blocks that moves over an endless sequence of them.
-- Block number `seq` holds the mcnts from seq * m to seq * m + m, and lives at seq % n of the buffer.
-- src/s6_pktsock_thread.cpp and src/s6_net_thread.cpp both implement it.
pub mod Cases
pub mod Order
use serendip6_reobs.Base.{
  ℕ, ◌+◌, ◌-◌, ◌*◌, ◌/◌, ◌%◌, ◌≤◌, ◌<◌, ◌≡◌, Bool, true, false, Option, none, some, List, [], ◌∷◌,
  arith, ltb, leb, ◌&&◌, if◌then◌else◌,
}
use serendip6_reobs.Base.Arith.{mod-advance, mod_around, mod_small, mod_below}

-- The number of blocks in the buffer, of mcnts in a block, the distance at which a packet is too late to
-- be just late, and the number of packets out of sequence that are tolerated in a row.
pub record Shape : Type 0 where
  pub blocks : ℕ
  pub mcnts : ℕ
  pub late_threshold : ℕ
  pub tolerated : ℕ

-- The first block of the window, and the packets out of sequence since the last expected one.
pub record Window : Type 0 where
  pub seq : ℕ
  pub strays : ℕ

-- The first block from number `pkt_seq` on that lives at position `block_i` of `n`.
abbrev pub advanced_seq : (n block_i pkt_seq : ℕ) → ℕ
advanced_seq n block_i pkt_seq =
    if ltb (pkt_seq % n) block_i
    then pkt_seq + (block_i - pkt_seq % n)
    else if ltb block_i (pkt_seq % n)
    then pkt_seq + (block_i + n - pkt_seq % n)
    else pkt_seq

pub advanced_seq-mod :
    (n b p : ℕ)
    → b < n
    → (advanced_seq n b p % n ≡ b) × (p ≤ advanced_seq n b p) × (advanced_seq n b p < p + n)
advanced_seq-mod n b p h = ground (
  arith,
  mod-advance p b n,
  mod-advance p (b + n) n,
  mod_around b n h,
  mod_small b n h,
  mod_below p n (omega arith),
)

module _ (sh : Shape) where
  open sh use {blocks as n, mcnts as m}

  -- Whether a packet is for one of the two blocks of the window.
  abbrev pub expects : Window → (mcnt : ℕ) → Bool
  expects w mcnt = leb (w.seq * m) mcnt && ltb mcnt (w.seq * m + 2 * m)

  -- Whether an expected packet says that the first block is done: it is for the second half of the second.
  abbrev pub completes : Window → (mcnt : ℕ) → Bool
  completes w mcnt = leb (3 * (m / 2)) (mcnt - w.seq * m)

  -- Whether a packet is late, but not too late.
  abbrev pub misses : Window → (mcnt : ℕ) → Bool
  misses w mcnt = ltb mcnt (w.seq * m) && ltb (w.seq * m) (mcnt + sh.late_threshold)

  -- The window after a packet. A reset keeps the position in the buffer, and does not clear the count of
  -- strays: the next stray resets again.
  unfoldable pub move : (mcnt : ℕ) → Window → Window
  move mcnt w =
      if expects w mcnt
      then record { seq = if completes w mcnt then w.seq + 1 else w.seq; strays = 0 }
      else if misses w mcnt
      then w
      else record {
        seq =
            if ltb sh.tolerated (w.strays + 1)
            then advanced_seq n (w.seq % n) (mcnt / m)
            else w.seq;
        strays = w.strays + 1;
      }

  -- The number of the block that is handed over at a packet.
  unfoldable pub hands_over : (mcnt : ℕ) → Window → Option ℕ
  hands_over mcnt w = if expects w mcnt && completes w mcnt then some w.seq else none

  -- Any sequence of packets, and the blocks that are handed over meanwhile, in order.
  unfoldable pub moves : List ℕ → Window → Window
  moves [] w = w
  moves (mcnt ∷ ms) w = moves ms (move mcnt w)

  unfoldable pub all_handed_over : List ℕ → Window → List ℕ
  all_handed_over [] w = []
  all_handed_over (mcnt ∷ ms) w =
      let later = all_handed_over ms (move mcnt w) in
      elim (hands_over mcnt w) [ some seq ↦ seq ∷ later | none ↦ later ]
