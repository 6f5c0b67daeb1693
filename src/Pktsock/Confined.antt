-- ===== src/Pktsock/Confined.antt =====
-- The thread for SOURCE_FAST, on frames whose payload fits in its place: it implements the window, counts the
-- packets, and writes to no memory but that of the blocks that it holds.
use serendip6_reobs.Base.{
  ℕ, ◌+◌, ◌*◌, ◌/◌, ◌%◌, ◌≤◌, ◌<◌, ◌≡◌, ◌≢◌, ◌⊎◌, inl, inr, refl, sym, ap, ◌∙◌, ok, ok-injective,
  ◌>>=◌, arith, List, [], ◌∷◌, true, some, Bool-cases,
}
use serendip6_reobs.Config.{Config, fast_of}
use serendip6_reobs.Databuf.{Hashpipe, InputDatabuf}
use serendip6_reobs.Databuf.Input.{s6_input_databuf_busywait_free}
use serendip6_reobs.Window.{Window, move, moves, hands_over, all_handed_over}
use serendip6_reobs.Window.Order.{InTurn}
use serendip6_reobs.Packets.{semaphores_along, semaphores_at_start}
use serendip6_reobs.Packets.Ledger.{proper, held_at_start}
use serendip6_reobs.Pktsock.{Frame, Status, PktState, nm}
use serendip6_reobs.Pktsock.Header.{get_header}
use serendip6_reobs.Pktsock.Process.{process_packet}
use serendip6_reobs.Pktsock.Ring.{IsUsable, Inv, CallsSucceed}
use serendip6_reobs.Pktsock.Trace.{
  IsFrame, prepared, shape, Follows, netmcnt_of, process_packet-Moves,
}
use serendip6_reobs.Pktsock.Semaphores.{Uses}
use serendip6_reobs.Pktsock.Owned.{process_packet-SameElsewhere}
use serendip6_reobs.Pktsock.Run.{Loop, wrong_size, start_blocks}
use serendip6_reobs.Pktsock.Start.{
  at_start, at_zero, AreFrames, process_all, mcnts_of, started_blocks, start_blocks_lem,
  started-Follows, process_packet-leads, process_all-moves,
}
use serendip6_reobs.Pktsock.Missed.{Counts}
use serendip6_reobs.Pktsock.Counting.{AreFromBeams, process_all-Counts}
use serendip6_reobs.Pktsock.Rounds.{Arrival, HoldBytes, run, accepted, refused, run-process_all}
use serendip6_reobs.Pktsock.Bounds.{Fits, SameBehind, process_packet-SameBehind}

-- All the frames fit.
abbrev pub AllFit : List ((ℕ × ℕ) × Frame) → Type 0
AllFit [] = Unit
AllFit ((now, f) ∷ fs) = Fits f × AllFit fs

AllFit-AreFrames : (fs : List ((ℕ × ℕ) × Frame)) → AllFit fs → AreFrames fs
AllFit-AreFrames [] b = tt
AllFit-AreFrames ((now, f) ∷ fs) b = (b.0.frame, AllFit-AreFrames fs b.1)

-- All the frames hold bytes, and none has a payload that is longer than its place.
abbrev pub NoneTooLong : List Arrival → Type 0
NoneTooLong [] = Unit
NoneTooLong (a ∷ rs) = IsFrame a.frame × (a.frame.udp_size ≤ 4112) × NoneTooLong rs

NoneTooLong-HoldBytes : (rs : List Arrival) → NoneTooLong rs → HoldBytes rs
NoneTooLong-HoldBytes [] b = tt
NoneTooLong-HoldBytes (a ∷ rs) (frame, _, more) = (frame, NoneTooLong-HoldBytes rs more)

-- The size test lets no frame through that is too short for its header word and its checksum.
accepted-AllFit : (c : Config) (rs : List Arrival) → NoneTooLong rs → AllFit (accepted c rs)
unfolding wrong_size
accepted-AllFit c [] b = tt
accepted-AllFit c (a ∷ rs) (frame, short, more) = elim (Bool-cases (wrong_size c a.frame)) [
  | inl wrong ↦ rw wrong (accepted-AllFit c rs more)
  | inr right ↦ rw right (
    record { frame = frame; lower = ground (arith, right); upper = short },
    accepted-AllFit c rs more,
  )
]

module _ (n : ℕ) (u : IsUsable (fast_of n)) {hp : Hashpipe} (k : CallsSucceed hp) where
  -- In a usable SOURCE_FAST build, while the hashpipe calls succeed: process_packet implements the window. On
  -- a frame whose payload fits in its place, from a state that stands for a window once it is initialized,
  -- it returns. The new state stands for the window moved by the packet's mcnt. What it returns is the
  -- first mcnt of the block that the window hands over, or -1 if there is none or the source ID is out of
  -- range. The only calls on semaphores are, if a block is handed over, one that sets it filled and one
  -- that waits for the block after the next. And nothing behind the data of a block is written.
  pub process_packet-Moves_fast :
      (s : PktState hp) {w : Window} (now : ℕ × ℕ) (f : Frame)
      → Fits f
      → Follows (fast_of n) (prepared (fast_of n) s) w
      → let h = get_header (fast_of n) f in
        let handed = hands_over (shape (fast_of n)) h.mcnt w in
        (t : PktState hp) × (netmcnt : ℕ) × (process_packet (fast_of n) now f s ≡ ok (t, netmcnt))
        × Follows (fast_of n) t (move (shape (fast_of n)) h.mcnt w)
        × (netmcnt ≡ netmcnt_of (fast_of n) h.sid handed)
        × Uses (fast_of n) handed s.db t.db
        × SameBehind n s.db t.db
  process_packet-Moves_fast s now f fits fo =
      let (t, r, e, fo1, returned, uses) = process_packet-Moves u k s now f fits.frame fo in
      (t, r, e, fo1, returned, uses, process_packet-SameBehind n u k s now f fits fo e)

  -- In a usable SOURCE_FAST build, while the hashpipe calls succeed: when process_packet returns on a frame
  -- whose payload fits in its place, from a state that keeps the ring with block number `seq` current, it
  -- has changed no block of the buffer but those that the thread holds, and nothing behind the data of
  -- these. The blocks held are `seq`, the next, and, if the packet is for the second half of the next
  -- block, the one after, which is acquired then.
  pub process_packet-elsewhere_fast :
      (s : PktState hp) {t : PktState hp} {seq r : ℕ} (now : ℕ × ℕ) (f : Frame)
      → Fits f
      → Inv (fast_of n) (prepared (fast_of n) s) seq
      → process_packet (fast_of n) now f s ≡ ok (t, r)
      → let mcnt = (get_header (fast_of n) f).mcnt in
        let blocks = (fast_of n).n_input_blocks in
        ((j : ℕ)
          → j ≢ seq % blocks
          → j ≢ (seq + 1) % blocks
          → (j ≢ (seq + 2) % blocks)
            ⊎ ((mcnt < seq * nm (fast_of n) + 3 * (nm (fast_of n) / 2))
                ⊎ (seq * nm (fast_of n) + 2 * nm (fast_of n) ≤ mcnt))
          → t.db.block j ≡ s.db.block j)
        × SameBehind n s.db t.db
  process_packet-elsewhere_fast s {seq = seq} now f fits i e = (
    process_packet-SameElsewhere u k s now f fits.frame i e,
    process_packet-SameBehind n u k s
        {w = record { seq = seq; strays = (prepared (fast_of n) s).binfo.out_of_seq_cnt }} now f
        fits (record { ring = i; strays = refl }) e,
  )

  process_all-SameBehind :
      (fs : List ((ℕ × ℕ) × Frame)) (s : PktState hp) {t : PktState hp} (w : Window)
      → AllFit fs
      → Follows (fast_of n) (prepared (fast_of n) s) w
      → process_all (fast_of n) fs s ≡ ok t
      → SameBehind n s.db t.db
  unfolding process_all
  process_all-SameBehind [] s w b fo e i j far = rw (← ok-injective e) refl
  process_all-SameBehind ((now, f) ∷ fs) s {t} w b fo e i j far =
      let (s1, r, e1, _, _, _) = process_packet-Moves u k s now f b.0.frame fo in
      let (fo1, _) = process_packet-leads u k s now f b.0.frame fo e1 in
      process_all-SameBehind fs s1 (move (shape (fast_of n)) (get_header (fast_of n) f).mcnt w) b.1
        fo1 (rw e1 at e) i j far
      ∙ process_packet-SameBehind n u k s now f b.0 fo e1 i j far

  -- The start of the blocks leaves their data.
  bytes-started :
      (db : InputDatabuf hp) (i : ℕ) → ((started_blocks u k db).block i).bytes ≡ (db.block i).bytes
  unfolding s6_input_databuf_busywait_free
  bytes-started db i = ground arith

  from_start-SameBehind :
      (st : Status) (db : InputDatabuf hp) (fs : List ((ℕ × ℕ) × Frame)) {t : PktState hp}
      → AllFit fs
      → process_all (fast_of n) fs (at_start st (started_blocks u k db)) ≡ ok t
      → SameBehind n db t.db
  from_start-SameBehind st db fs b e i j far =
      process_all-SameBehind fs (at_start st (started_blocks u k db)) at_zero b
        (started-Follows u k st db) e i j far
      ∙ ap (λ (x : ℕ → ℕ). x j) (bytes-started db i)

  -- In a usable SOURCE_FAST build, while the hashpipe calls succeed: the thread implements the window. From
  -- its start, every sequence of frames whose payloads fit in their places is processed to its end, the
  -- state that it leaves stands for the window that the mcnts of the packets lead to from block 0, and the
  -- blocks that this window hands over meanwhile are those of the buffer in turn, from the first one on,
  -- across all resets. The semaphores are used for these blocks and at the start, and for nothing else:
  -- so no block is set filled that the thread does not hold, and none is waited for that it holds. And
  -- nothing behind the data of a block is ever written.
  pub process_all-moves_fast :
      (st : Status) (db : InputDatabuf hp) (fs : List ((ℕ × ℕ) × Frame))
      → AllFit fs
      → let handed = all_handed_over (shape (fast_of n)) (mcnts_of (fast_of n) fs) at_zero in
        (t : PktState hp) × ((start_blocks (fast_of n) db >>= λ db1.
        process_all (fast_of n) fs (at_start st db1))
          ≡ ok t)
        × Follows
            (fast_of n)
            (prepared (fast_of n) t)
            (moves (shape (fast_of n)) (mcnts_of (fast_of n) fs) at_zero)
        × InTurn (fast_of n).n_input_blocks 0 handed
        × (t.db.header ≡ semaphores_along (fast_of n) hp handed (semaphores_at_start hp db.header))
        × (proper (fast_of n).n_input_blocks handed held_at_start ≡ true)
        × SameBehind n db t.db
  process_all-moves_fast st db fs b =
      let (t, e, fo, turn, sems, held) = process_all-moves u k st db fs (AllFit-AreFrames fs b) in
      (
        t,
        e,
        fo,
        turn,
        sems,
        held,
        from_start-SameBehind st db fs b (rw (start_blocks_lem u k db) at e),
      )

  -- In a usable SOURCE_FAST build, while the hashpipe calls succeed: from the start of the thread, every
  -- sequence of frames whose payloads fit in their places and whose source IDs are in range is processed to
  -- its end, and then, for each of the two blocks that the thread holds, the counter of missed packets in
  -- its header and the thread's own counter of its packets add up to the number of mcnts of a block,
  -- modulo 2 ^ 64. And nothing behind the data of a block is ever written.
  pub process_all-Counts_fast :
      (st : Status) (db : InputDatabuf hp) (fs : List ((ℕ × ℕ) × Frame))
      → AllFit fs
      → AreFromBeams (fast_of n) fs
      → (t : PktState hp) × (last : ℕ) × ((start_blocks (fast_of n) db >>= λ db1.
            process_all (fast_of n) fs (at_start st db1))
          ≡ ok t)
        × Inv (fast_of n) (prepared (fast_of n) t) last
        × Counts (fast_of n) (prepared (fast_of n) t) last
        × SameBehind n db t.db
  process_all-Counts_fast st db fs b good =
      let (t, last, e, i, counts) =
        process_all-Counts n u k st db fs (AllFit-AreFrames fs b) good in
      (t, last, e, i, counts, from_start-SameBehind st db fs b (rw (start_blocks_lem u k db) at e))

  -- In a usable SOURCE_FAST build, while the hashpipe calls succeed: from its start the thread runs through any
  -- number of rounds, on frames of which none has a payload that is longer than its place. What it does with
  -- those that pass the size test implements the window of their mcnts, whatever frames were there before it
  -- started: the state stands for the window that they lead to from block 0, the semaphores are used for the
  -- blocks that this window hands over, and these are those of the buffer in turn. Nothing behind the data
  -- of a block is ever written. Each frame that does not pass the test is left out, counted, and still held
  -- at the end: the ring of the packet socket has not got it back.
  pub run-moves_fast :
      (st : Status) (pending : ℕ) (db : InputDatabuf hp) (rs : List Arrival) (l : Loop hp)
      → NoneTooLong rs
      → let mcnts = mcnts_of (fast_of n) (accepted (fast_of n) rs) in
        let handed = all_handed_over (shape (fast_of n)) mcnts at_zero in
        (t : Loop hp) × (run (fast_of n) st pending db rs l ≡ ok t)
        × Follows (fast_of n) (prepared (fast_of n) t.pkt) (moves (shape (fast_of n)) mcnts at_zero)
        × (t.pkt.db.header
            ≡ semaphores_along (fast_of n) hp handed (semaphores_at_start hp db.header))
        × InTurn (fast_of n).n_input_blocks 0 handed
        × SameBehind n db t.pkt.db
        × (t.held ≡ l.held + refused (fast_of n) rs)
        × (t.bad_sizes ≡ l.bad_sizes + refused (fast_of n) rs)
  run-moves_fast st pending db rs l b =
      let (t, e, same, held, bad) =
        run-process_all u k st pending db rs l (NoneTooLong-HoldBytes rs b) in
      let (s, e1, fo, turn, sems, _, behind) =
        process_all-moves_fast (record st { missedbm = some 0; missedpk = some 0 }) db
          (accepted (fast_of n) rs) (accepted-AllFit (fast_of n) rs b) in
      let reached : s ≡ t.pkt = ok-injective (sym e1 ∙ same) in
      (t, e, rw (← reached) fo, rw (← reached) sems, turn, rw (← reached) behind, held, bad)
