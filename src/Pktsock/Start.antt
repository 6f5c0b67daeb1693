-- ===== src/Pktsock/Start.antt =====
-- From the start of the thread through any sequence of frames.
use serendip6_reobs.Base.{
  ℕ, ◌<◌, ◌≡◌, refl, none, Result, ok, err, Fault, ◌>>=◌, arith, List, [], ◌∷◌, sym, ap, ◌∙◌,
  ok-injective,
}
use serendip6_reobs.Base.Arith.{div-eq, mod-eq, mod_small}
use serendip6_reobs.Window.{Window, move, moves, hands_over, all_handed_over}
use serendip6_reobs.Window.Order.{InTurn, all_handed_over-InTurn}
use serendip6_reobs.Pktsock.Header.{get_header}
use serendip6_reobs.Config.{Config}
use serendip6_reobs.Databuf.{Hashpipe, InputDatabuf}
use serendip6_reobs.Databuf.Input.{s6_input_databuf_busywait_free}
use serendip6_reobs.Base.{true}
use serendip6_reobs.Packets.Ledger.{proper, held_at_start, held_at_start-Holds, InTurn-proper}
use serendip6_reobs.Packets.Semaphores.{semaphores_along-step}
use serendip6_reobs.Packets.{semaphores_at_start, semaphores_along, zero_block_info}
use serendip6_reobs.Pktsock.{Frame, Status, PktState, nm, set_block}
use serendip6_reobs.Pktsock.Block.{initialize_block_info, block_for_mcnt, initialize_block}
use serendip6_reobs.Pktsock.Process.{process_packet}
use serendip6_reobs.Pktsock.Ring.{
  IsUsable, Inv, CallsSucceed, misfilled, initialize_block_lem, fresh_block,
}
use serendip6_reobs.Pktsock.Trace.{IsFrame, prepared, Follows, shape, process_packet-Moves}
use serendip6_reobs.Pktsock.Semaphores.{Uses}
use serendip6_reobs.Pktsock.Run.{start_blocks}

-- The state of a thread that has started its blocks.
abbrev pub at_start : {hp : Hashpipe} → Status → InputDatabuf hp → PktState hp
at_start st db = record {
  binfo = zero_block_info;
  last_filled = none;
  db = db;
  status = st;
  messages = [];
}

-- The calls of process_packet that a run of the thread makes, each with its time and its frame.
unfoldable pub process_all :
    (c : Config) {hp : Hashpipe} → List ((ℕ × ℕ) × Frame) → PktState hp → Result (PktState hp)
process_all c [] s = ok s
process_all c ((now, f) ∷ fs) s = do (s1, netmcnt) ← process_packet c now f s; process_all c fs s1

-- All the frames hold bytes.
abbrev pub AreFrames : List ((ℕ × ℕ) × Frame) → Type 0
AreFrames [] = Unit
AreFrames ((now, f) ∷ fs) = IsFrame f × AreFrames fs

-- The mcnts of the packets.
abbrev pub mcnts_of : Config → List ((ℕ × ℕ) × Frame) → List ℕ
mcnts_of c [] = []
mcnts_of c ((now, f) ∷ fs) = (get_header c f).mcnt ∷ mcnts_of c fs

-- The window at the start.
abbrev pub at_zero : Window
at_zero = record { seq = 0; strays = 0 }

-- If the hashpipe calls succeed and a packet has more spectra than a block has time samples, there is
-- no mcnt in a block, and the first division of the start traps: the thread ends before it has seen a
-- packet.
pub start_blocks-trap :
    (c : Config) {hp : Hashpipe} (db : InputDatabuf hp)
    → CallsSucceed hp
    → c.n_time_samples < c.n_spectra_per_packet
    → start_blocks c db ≡ err Fault.div_by_zero
unfolding start_blocks initialize_block block_for_mcnt s6_input_databuf_busywait_free
start_blocks-trap c {hp} db k h = ground (
  arith,
  k.freed db.header 0,
  k.freed (hp.busywait_free db.header 0).1 1,
  div-eq c.n_time_samples 0 c.n_spectra_per_packet,
)

module _ {c : Config} (u : IsUsable c) {hp : Hashpipe} (k : CallsSucceed hp) where
  open u use {mcnts, blocks, small}

  -- The buffer after the two waits.
  abbrev acquired : InputDatabuf hp → InputDatabuf hp
  acquired db = (s6_input_databuf_busywait_free (s6_input_databuf_busywait_free db 0).1 1).1

  abbrev first_block : InputDatabuf hp → InputDatabuf hp
  first_block db = set_block (acquired db) 0 (fresh_block c 0 0 0 0 ((acquired db).block 0))

  abbrev pub started_blocks : InputDatabuf hp → InputDatabuf hp
  started_blocks db =
      set_block (first_block db) 1 (fresh_block c (nm c) 0 0 0 ((first_block db).block 1))

  pub start_blocks_lem : (db : InputDatabuf hp) → start_blocks c db ≡ ok (started_blocks db)
  unfolding start_blocks s6_input_databuf_busywait_free
  start_blocks_lem db = ground (
    arith,
    k.freed db.header 0,
    k.freed (hp.busywait_free db.header 0).1 1,
    mod_small 0 c.n_input_blocks,
    mod_small 1 c.n_input_blocks,
    initialize_block_lem u 0 0 0 0 0 (acquired db),
    initialize_block_lem u (nm c) 1 0 0 0 (first_block db),
  )

  -- The start sets up the ring with block number 0 current.
  pub started-Inv :
      (st : Status) (db : InputDatabuf hp) → Inv c (prepared c (at_start st (started_blocks db))) 0
  unfolding initialize_block_info s6_input_databuf_busywait_free
  started-Inv st db = ground (
    arith,
    mod_small 0 c.n_input_blocks,
    mod_small 1 c.n_input_blocks,
    mod-eq 0 0 (nm c),
    mod-eq (nm c) 1 (nm c),
  )

  pub prepared-Inv : {s : PktState hp} {seq : ℕ} → Inv c s seq → Inv c (prepared c s) seq
  unfolding initialize_block_info
  prepared-Inv i = ground arith

  prepared-Follows : {s : PktState hp} {w : Window} → Follows c s w → Follows c (prepared c s) w
  unfolding initialize_block_info
  prepared-Follows fo =
      let started = fo.ring.started in record { ring = prepared-Inv fo.ring; strays = ground arith }

  -- What the theorem on process_packet says of a call that has returned.
  pub process_packet-leads :
      (s : PktState hp) {t : PktState hp} {r : ℕ} {w : Window} (now : ℕ × ℕ) (f : Frame)
      → IsFrame f
      → Follows c (prepared c s) w
      → process_packet c now f s ≡ ok (t, r)
      → Follows c (prepared c t) (move (shape c) (get_header c f).mcnt w)
        × Uses c (hands_over (shape c) (get_header c f).mcnt w) s.db t.db
  process_packet-leads s {t} {w} now f b fo e =
      let (t', r', e', fo', _, uses) = process_packet-Moves u k s now f b fo in
      rw (← ap (λ (x : PktState hp × ℕ). x.0) (ok-injective (sym e' ∙ e)))
        (prepared-Follows fo', uses)

  process_all-Follows :
      (fs : List ((ℕ × ℕ) × Frame)) (s : PktState hp) (w : Window)
      → AreFrames fs
      → Follows c (prepared c s) w
      → (t : PktState hp) × (process_all c fs s ≡ ok t)
        × Follows c (prepared c t) (moves (shape c) (mcnts_of c fs) w)
        × (t.db.header
            ≡ semaphores_along c hp (all_handed_over (shape c) (mcnts_of c fs) w) s.db.header)
  unfolding process_all moves all_handed_over
  process_all-Follows [] s w b fo = (s, refl, fo, refl)
  process_all-Follows ((now, f) ∷ fs) s w b fo =
      let mcnt = (get_header c f).mcnt in
      let (s1, r, e, fo1, _, sems) = process_packet-Moves u k s now f b.0 fo in
      let (t, e1, fo2, more) =
        process_all-Follows fs s1 (move (shape c) mcnt w) b.1 (prepared-Follows fo1) in
      (
        t,
        rw e e1,
        fo2,
        more
            ∙ ap
                (semaphores_along c hp
                  (all_handed_over (shape c) (mcnts_of c fs) (move (shape c) mcnt w)))
                sems.semaphores
            ∙ sym (semaphores_along-step c hp (shape c) mcnt (mcnts_of c fs) w s.db.header),
      )

  pub started-Follows :
      (st : Status) (db : InputDatabuf hp)
      → Follows c (prepared c (at_start st (started_blocks db))) at_zero
  unfolding initialize_block_info
  started-Follows st db = record { ring = started-Inv st db; strays = refl }

  -- In a usable build, while the hashpipe calls succeed: the thread implements the window. From its start,
  -- every sequence of frames of bytes is processed to its end, the state that it leaves stands for the
  -- window that the mcnts of the packets lead to from block 0, and the blocks that this window hands over
  -- meanwhile are those of the buffer in turn, from the first one on, across all resets. The semaphores
  -- are used for these blocks and at the start, and for nothing else: so no block is set filled that the
  -- thread does not hold, and none is waited for that it holds.
  -- In the model, whose blocks do not touch: see Confined for the frames of which this is so in memory.
  pub process_all-moves :
      (st : Status) (db : InputDatabuf hp) (fs : List ((ℕ × ℕ) × Frame))
      → AreFrames fs
      → (t : PktState hp) × ((start_blocks c db >>= λ db1. process_all c fs (at_start st db1))
          ≡ ok t)
        × Follows c (prepared c t) (moves (shape c) (mcnts_of c fs) at_zero)
        × InTurn c.n_input_blocks 0 (all_handed_over (shape c) (mcnts_of c fs) at_zero)
        × (t.db.header
            ≡ semaphores_along c hp
                (all_handed_over (shape c) (mcnts_of c fs) at_zero)
                (semaphores_at_start hp db.header))
        × (proper c.n_input_blocks (all_handed_over (shape c) (mcnts_of c fs) at_zero) held_at_start
            ≡ true)
  unfolding s6_input_databuf_busywait_free
  process_all-moves st db fs b =
      let turn = all_handed_over-InTurn (shape c) (mcnts_of c fs) at_zero 0 (omega arith) refl in
      let (t, e, fo, sems) =
        process_all-Follows fs (at_start st (started_blocks db)) at_zero b
          (started-Follows st db) in
      (
        t,
        rw (start_blocks_lem db) e,
        fo,
        turn,
        sems,
        InTurn-proper c.n_input_blocks 0 _ held_at_start blocks
            (held_at_start-Holds c.n_input_blocks blocks) turn,
      )

  -- In a usable build, while the hashpipe calls succeed: from the start of the thread, every
  -- sequence of frames of bytes is processed to its end without a trap, no block is ever filled out
  -- of the order of the buffer, and the ring is kept.
  process_all-in_order :
      (st : Status) (db : InputDatabuf hp) (fs : List ((ℕ × ℕ) × Frame))
      → AreFrames fs
      → (t : PktState hp) × (last : ℕ) × ((start_blocks c db >>= λ db1.
            process_all c fs (at_start st db1))
          ≡ ok t)
        × (misfilled t.messages ≡ 0)
        × Inv c (prepared c t) last
  process_all-in_order st db fs b =
      let (t, e, fo, _, _, _) = process_all-moves st db fs b in
      (t, (moves (shape c) (mcnts_of c fs) at_zero).seq, e, fo.ring.quiet, fo.ring)
