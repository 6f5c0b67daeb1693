-- ===== src/Pktsock/Rounds.antt =====
-- run of src/s6_pktsock_thread.cpp as a whole: the start, the dropping of the frames that are there already,
-- and any number of rounds of the main loop.
use serendip6_reobs.Base.{
  ℕ, zero, suc, ◌+◌, ◌-◌, ◌≡◌, refl, sym, ap, ◌∙◌, some, Result, ok, ◌>>=◌, arith, List, [], ◌∷◌,
  ◌==◌, true, false, Bool-cases, inl, inr, if◌then◌else◌,
}
use mathlib.Core.Path.{subst}
use serendip6_reobs.Window.{Window, move}
use serendip6_reobs.Config.{Config}
use serendip6_reobs.Databuf.{Hashpipe, InputDatabuf}
use serendip6_reobs.Packets.{no_block}
use serendip6_reobs.Packets.Stats.{Times}
use serendip6_reobs.Pktsock.{Frame, Status, PktState}
use serendip6_reobs.Pktsock.Header.{get_header}
use serendip6_reobs.Pktsock.Process.{process_packet}
use serendip6_reobs.Pktsock.Ring.{IsUsable, CallsSucceed}
use serendip6_reobs.Pktsock.Trace.{IsFrame, prepared, shape, Follows, process_packet-Moves}
use serendip6_reobs.Pktsock.Run.{Loop, wrong_size, publish, start_blocks, round}
use serendip6_reobs.Pktsock.Start.{
  at_start, at_zero, process_all, started_blocks, start_blocks_lem, started-Follows,
  process_packet-leads,
}

-- What a round of the main loop gets: the time, how long things took, what hashpipe_pktsock_stats says, and a
-- frame.
pub record Arrival : Type 0 where
  pub now : ℕ × ℕ
  pub times : Times
  pub pkts : ℕ
  pub drops : ℕ
  pub frame : Frame

-- while(p_frame=hashpipe_pktsock_recv_frame_nonblock(p_ps)) hashpipe_pktsock_release_frame(p_frame), with
-- `n` frames there.
unfoldable pub drop_frames : {hp : Hashpipe} (n : ℕ) → Loop hp → Loop hp
drop_frames zero l = l
drop_frames (suc n) l =
    let got = record l { held = l.held + 1 } in drop_frames n (record got { held = got.held - 1 })

unfoldable pub rounds : (c : Config) {hp : Hashpipe} → List Arrival → Loop hp → Result (Loop hp)
rounds c [] l = ok l
rounds c (a ∷ rs) l = do l1 ← round c a.now a.times a.pkts a.drops a.frame l; rounds c rs l1

-- The thread. Of `l` only what the start does not set is used.
unfoldable pub run :
    (c : Config) {hp : Hashpipe} (st : Status) (pending : ℕ)
    → InputDatabuf hp
    → List Arrival
    → Loop hp
    → Result (Loop hp)
run c st pending db rs l = do
  db1 ← start_blocks c db
  let l1 = drop_frames pending (record l { pkt = at_start st db1 })
  let st1 = record (l1.pkt.status) { missedbm = some 0; missedpk = some 0 }
  rounds c rs (record l1 { pkt = record (l1.pkt) { status = st1 } })

-- The frames that the size test lets through.
abbrev pub accepted : Config → List Arrival → List ((ℕ × ℕ) × Frame)
accepted c [] = []
accepted c (a ∷ rs) =
    let rest = accepted c rs in if wrong_size c a.frame then rest else ((a.now, a.frame) ∷ rest)

-- The number of the others.
abbrev pub refused : Config → List Arrival → ℕ
refused c [] = 0
refused c (a ∷ rs) = let rest = refused c rs in if wrong_size c a.frame then suc rest else rest

-- All the frames hold bytes.
abbrev pub HoldBytes : List Arrival → Type 0
HoldBytes [] = Unit
HoldBytes (a ∷ rs) = IsFrame a.frame × HoldBytes rs

-- A round with a frame of the right size, when process_packet has returned.
round-right :
    (c : Config) {hp : Hashpipe} (a : Arrival) (l : Loop hp) {t : PktState hp} {mcnt : ℕ}
    → wrong_size c a.frame ≡ false
    → process_packet c a.now a.frame l.pkt ≡ ok (t, mcnt)
    → (l1 : Loop hp) × (round c a.now a.times a.pkts a.drops a.frame l ≡ ok l1)
      × (l1.pkt ≡ t)
      × (l1.held ≡ l.held)
      × (l1.bad_sizes ≡ l.bad_sizes)
unfolding round publish
round-right c a l {t} {mcnt} right e = elim (Bool-cases (mcnt == no_block)) [
  | inl none_done ↦ rw (right, e, none_done) (_, refl, refl, omega arith, refl)
  | inr one_done ↦ rw (right, e, one_done) (_, refl, refl, omega arith, refl)
]

-- A round with a frame of another size.
round-wrong :
    (c : Config) {hp : Hashpipe} (a : Arrival) (l : Loop hp)
    → wrong_size c a.frame ≡ true
    → round c a.now a.times a.pkts a.drops a.frame l
      ≡ ok (record l { held = l.held + 1; bad_sizes = l.bad_sizes + 1 })
unfolding round
round-wrong c a l wrong = rw wrong refl

drop_frames-kept : {hp : Hashpipe} (n : ℕ) (l : Loop hp) → drop_frames n l ≡ l
unfolding drop_frames
drop_frames-kept zero l = refl
drop_frames-kept (suc n) l =
    drop_frames-kept n (record l { held = l.held + 1 - 1 })
    ∙ ap (λ x. record l { held = x }) (omega arith)

module _ {c : Config} (u : IsUsable c) {hp : Hashpipe} (k : CallsSucceed hp) where
  -- The rounds are those of process_packet on the frames of the right size.
  rounds-process_all :
      (rs : List Arrival) (l : Loop hp) (w : Window)
      → HoldBytes rs
      → Follows c (prepared c l.pkt) w
      → (t : Loop hp) × (rounds c rs l ≡ ok t)
        × (process_all c (accepted c rs) l.pkt ≡ ok t.pkt)
        × (t.held ≡ l.held + refused c rs)
        × (t.bad_sizes ≡ l.bad_sizes + refused c rs)
  unfolding rounds process_all
  rounds-process_all [] l w b fo = (l, refl, refl, omega arith, omega arith)
  rounds-process_all (a ∷ rs) l w b fo = elim (Bool-cases (wrong_size c a.frame)) [
    | inl wrong ↦
        (let (t, e, same, held, bad) =
            rounds-process_all rs (record l { held = l.held + 1; bad_sizes = l.bad_sizes + 1 }) w
              b.1 fo in
          rw (round-wrong c a l wrong, e, wrong)
            (t, refl, same, omega (arith, held), omega (arith, bad)))
    | inr right ↦
        (let (t1, mcnt, e1, _, _, _) = process_packet-Moves u k l.pkt a.now a.frame b.0 fo in
          let (l1, e2, pkt, held1, bad1) = round-right c a l right e1 in
          let (fo1, _) = process_packet-leads u k l.pkt a.now a.frame b.0 fo e1 in
          let (t, e, same, held, bad) =
            rounds-process_all rs l1 (move (shape c) (get_header c a.frame).mcnt w) b.1 (
              subst (λ s. Follows c (prepared c s) (move (shape c) (get_header c a.frame).mcnt w))
                (sym pkt) fo1) in
          rw (e2, e, right, e1)
            (
              t,
              refl,
              ap (process_all c (accepted c rs)) (sym pkt) ∙ same,
              omega (arith, held, held1),
              omega (arith, bad, bad1),
            ))
  ]

  -- From its start the thread runs through any number of rounds, and does with the frames that pass the size
  -- test what process_packet does with them one after the other.
  pub run-process_all :
      (st : Status) (pending : ℕ) (db : InputDatabuf hp) (rs : List Arrival) (l : Loop hp)
      → HoldBytes rs
      → (t : Loop hp) × (run c st pending db rs l ≡ ok t)
        × ((start_blocks c db >>= λ db1.
              process_all c
                (accepted c rs)
                (at_start (record st { missedbm = some 0; missedpk = some 0 }) db1))
            ≡ ok t.pkt)
        × (t.held ≡ l.held + refused c rs)
        × (t.bad_sizes ≡ l.bad_sizes + refused c rs)
  unfolding run
  run-process_all st pending db rs l b =
      let st1 = record st { missedbm = some 0; missedpk = some 0 } in
      let (t, e, same, held, bad) =
        rounds-process_all rs (record l { pkt = at_start st1 (started_blocks u k db) }) at_zero b
          (started-Follows u k st1 db) in
      (
        t,
        rw
            (
              start_blocks_lem u k db,
              drop_frames-kept pending (record l { pkt = at_start st (started_blocks u k db) }),
            )
            e,
        rw (start_blocks_lem u k db) same,
        held,
        bad,
      )
