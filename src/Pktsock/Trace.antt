-- ===== src/Pktsock/Trace.antt =====
-- process_packet as a whole, on one packet and on any sequence of them.
use serendip6_reobs.Base.{
  ℕ, ◌+◌, ◌-◌, ◌*◌, ◌/◌, ◌%◌, ◌^◌, ◌≤◌, ◌<◌, ◌≡◌, ◌⊎◌, inl, inr, refl, ap, ◌∙◌, Option, none, some,
  Result, ok, ◌>>=◌, arith, sub64, ltb, leb, if◌then◌else◌, Bool, true, false, Bool-cases,
}
use mathlib.Core.Path.{subst}
use native.Mathlib.Decide.{dec_lt}
use serendip6_reobs.Window.{Shape, Window, advanced_seq, move, hands_over}
use serendip6_reobs.Window.Cases.{move-done, move-more, move-late, move-stray}
use serendip6_reobs.Config.{Config}
use serendip6_reobs.Databuf.{Hashpipe, InputDatabuf}
use serendip6_reobs.Packets.{PacketHeader, BlockInfo, no_block}
use serendip6_reobs.Pktsock.{Frame, PktState, nm, max_out_of_seq, late_pkt_mcnt_threshold}
use serendip6_reobs.Pktsock.Header.{get_header, decode, word_be}
use serendip6_reobs.Pktsock.Block.{initialize_block_info}
use serendip6_reobs.Pktsock.Process.{take_packet, late, out_of_seq, dispatch, process_packet}
use serendip6_reobs.Pktsock.Ring.{IsUsable, Inv, CallsSucceed, block_for_mcnt_lem}
use serendip6_reobs.Pktsock.Reset.{restarted}
use serendip6_reobs.Pktsock.Finish.{finished, finished-Inv}
use serendip6_reobs.Pktsock.Semaphores.{
  Uses, Uses-then, Uses-take_packet, Uses-late, Uses-counted, Uses-finished,
}
use serendip6_reobs.Pktsock.Invariant.{
  Returns, dispatch-expected, dispatch-late, dispatch-out_of_seq, take_packet-Inv,
  netmcnt-take_packet, strays-take_packet, late-Inv, counted, counted-Inv, reset_lem, reset_seq,
  reset_mcnt,
}

-- The data of a frame are bytes.
pub record IsFrame (f : Frame) : Type 0 where
  pub byte : (i : ℕ) → f.udp_data i < 256

-- A header's mcnt has at most 56 bits.
pub mcnt-get_header : (c : Config) (f : Frame) → IsFrame f → (get_header c f).mcnt < 2 ^ 56
unfolding get_header decode word_be
mcnt-get_header c f b =
    ground (arith, b.byte 0, b.byte 1, b.byte 2, b.byte 3, b.byte 4, b.byte 5, b.byte 6, b.byte 7)

-- The state when the packet's header is read.
abbrev pub prepared : (c : Config) {hp : Hashpipe} → PktState hp → PktState hp
prepared c s = record s { binfo = initialize_block_info c s.binfo }

-- The window that the thread implements.
abbrev pub shape : Config → Shape
shape c = record {
  blocks = c.n_input_blocks;
  mcnts = nm c;
  late_threshold = late_pkt_mcnt_threshold c;
  tolerated = max_out_of_seq c;
}

-- The state keeps the ring, and stands for the window `w`.
pub record Follows (c : Config) {hp : Hashpipe} (s : PktState hp) (w : Window) : Type 0 where
  pub ring : Inv c s w.seq
  pub strays : s.binfo.out_of_seq_cnt ≡ w.strays

-- What process_packet returns when the window hands a block over, or none.
abbrev pub netmcnt_of : Config → (sid : ℕ) → Option ℕ → ℕ
netmcnt_of c sid none = no_block
netmcnt_of c sid (some seq) = if leb c.n_source_nodes sid then no_block else seq * nm c

-- The result of a packet: the code has returned, the window has moved by the packet's mcnt, and what is
-- returned is what the window hands over, for which alone the semaphores of the buffer, `db` before, have been used.
abbrev pub Moves :
    (c : Config) {hp : Hashpipe}
    → PacketHeader
    → Window
    → InputDatabuf hp
    → Result (PktState hp × ℕ)
    → Type 0
Moves c {hp} h w db r =
    (t : PktState hp) × (netmcnt : ℕ) × (r ≡ ok (t, netmcnt))
    × Follows c t (move (shape c) h.mcnt w)
    × (netmcnt ≡ netmcnt_of c h.sid (hands_over (shape c) h.mcnt w))
    × Uses c (hands_over (shape c) h.mcnt w) db t.db

module _ {c : Config} (u : IsUsable c) {hp : Hashpipe} (k : CallsSucceed hp) where
  open u use {mcnts, blocks, small}

  late_threshold_pos : 0 < late_pkt_mcnt_threshold c
  late_threshold_pos = grind arith

  pub counted-strays :
      (h : PacketHeader) (s : PktState hp)
      → (counted u h s).binfo.out_of_seq_cnt ≡ s.binfo.out_of_seq_cnt + 1
  counted-strays h s = ground arith

  -- The state after a reset.
  abbrev reset_state : PacketHeader → PktState hp → PktState hp
  reset_state h s =
      let s1 = counted u h s in restarted u (reset_seq u h s1) (reset_mcnt u h s1) h s1

  Uses-reset : (h : PacketHeader) (s : PktState hp) → Uses c none s.db (reset_state h s).db
  Uses-reset h s =
      let before = Uses-counted u h s in
      record { semaphores = before.semaphores; size = before.size }

  out_of_seq-Moves :
      {s : PktState hp} {w : Window} (h : PacketHeader)
      → Follows c s w
      → h.mcnt < 2 ^ 56
      → (w.seq * nm c + 2 * nm c ≤ h.mcnt) ⊎ (h.mcnt + late_pkt_mcnt_threshold c ≤ w.seq * nm c)
      → Moves c h w s.db
          (out_of_seq c (h.mcnt / nm c % c.n_input_blocks) h s >>= λ s1. ok (s1, no_block))
  unfolding out_of_seq
  out_of_seq-Moves {s} {w} h fo small_mcnt far =
      let (moved, handed) = move-stray (shape c) h.mcnt w late_threshold_pos far in
      let ring = counted-Inv u h fo.ring in
      let count = counted-strays h s ∙ ap (λ n. n + 1) fo.strays in
      elim (Bool-cases (ltb (max_out_of_seq c) (w.strays + 1))) [
        | inl more ↦
            let over : ltb (max_out_of_seq c) (counted u h s).binfo.out_of_seq_cnt ≡ true =
              rw count more in
            let (done, inv, _) = reset_lem u h ring small_mcnt in
            (
              reset_state h s,
              no_block,
              rw (over, done),
              rw (moved, more)
                  (record {
                    ring =
                        subst (λ q. Inv c (reset_state h s) q)
                          (ap (λ b. advanced_seq c.n_input_blocks b (h.mcnt / nm c)) ring.current)
                          inv;
                    strays = count;
                  }),
              rw handed refl,
              rw handed (Uses-reset h s),
            )
        | inr few ↦
            let under : ltb (max_out_of_seq c) (counted u h s).binfo.out_of_seq_cnt ≡ false =
              rw count few in
            (
              counted u h s,
              no_block,
              rw under,
              rw (moved, few) (record { ring = ring; strays = count }),
              rw handed refl,
              rw handed (Uses-counted u h s),
            )
      ]

  expected-Moves :
      {s : PktState hp} {w : Window} (now : ℕ × ℕ) (h : PacketHeader) (f : Frame) (b : ℕ)
      → Follows c s w
      → h.mcnt < 2 ^ 56
      → w.seq * nm c ≤ h.mcnt
      → h.mcnt < w.seq * nm c + 2 * nm c
      → Moves c h w s.db (dispatch c now (sub64 h.mcnt s.binfo.mcnt_start) b h f s)
  expected-Moves {s} {w} now h f b fo small_mcnt lo hi =
      rw (dispatch-expected u now h f b fo.ring k small_mcnt lo hi)
        (elim (Bool-cases (leb (3 * (nm c / 2)) (h.mcnt - w.seq * nm c))) [
          | inl done ↦
              let (moved, handed) = move-done (shape c) h.mcnt w lo hi done in
              let s1 = finished u w.seq now h s in
              let p = take_packet c b (w.seq * nm c) h f s1 in
              (
                p.0,
                p.1,
                rw done,
                rw moved (record {
                  ring =
                      take_packet-Inv u b (w.seq * nm c) h f
                        (finished-Inv u now h fo.ring small_mcnt (ground arith) hi);
                  strays = strays-take_packet c b (w.seq * nm c) h f s1;
                }),
                rw handed (netmcnt-take_packet c b (w.seq * nm c) h f s1),
                rw handed (
                    Uses-then (Uses-take_packet c b (w.seq * nm c) h f s1)
                      (Uses-finished u w.seq now h s)),
              )
          | inr more ↦
              let (moved, handed) = move-more (shape c) h.mcnt w lo hi more in
              let p = take_packet c b no_block h f s in
              (
                p.0,
                p.1,
                rw more,
                rw moved (record {
                  ring = take_packet-Inv u b no_block h f fo.ring;
                  strays = strays-take_packet c b no_block h f s;
                }),
                rw handed (
                    netmcnt-take_packet c b no_block h f s
                    ∙ same_either_way (leb c.n_source_nodes h.sid)),
                rw handed (Uses-take_packet c b no_block h f s),
              )
        ])
    where
      same_either_way : (b : Bool) → (if b then no_block else no_block) ≡ no_block
      same_either_way true = refl
      same_either_way false = refl

  late-strays : (h : PacketHeader) (s : PktState hp) → (late c h s).binfo ≡ s.binfo
  unfolding late
  late-strays h s = ground arith

  dispatch-Moves :
      {s : PktState hp} {w : Window} (now : ℕ × ℕ) (h : PacketHeader) (f : Frame)
      → Follows c s w
      → h.mcnt < 2 ^ 56
      → Moves c h w s.db (
          dispatch c now (sub64 h.mcnt s.binfo.mcnt_start) (h.mcnt / nm c % c.n_input_blocks) h f s)
  dispatch-Moves {s} {w} now h f fo small_mcnt = elim (dec_lt h.mcnt (w.seq * nm c)) [
    | yes before ↦ elim (dec_lt (w.seq * nm c) (h.mcnt + late_pkt_mcnt_threshold c)) [
      | yes near ↦
          let (moved, handed) = move-late (shape c) h.mcnt w before near in
          (
            late c h s,
            no_block,
            dispatch-late u now h f _ fo.ring before near,
            rw moved (record {
              ring = late-Inv u h fo.ring;
              strays = ap (λ (b : BlockInfo). b.out_of_seq_cnt) (late-strays h s) ∙ fo.strays;
            }),
            rw handed refl,
            rw handed (Uses-late c h s),
          )
      | no far ↦
          rw (dispatch-out_of_seq u now h f _ fo.ring small_mcnt (inr (omega arith)))
            (out_of_seq-Moves h fo small_mcnt (inr (omega arith)))
    ]
    | no after ↦ elim (dec_lt h.mcnt (w.seq * nm c + 2 * nm c)) [
      | yes near ↦
          expected-Moves now h f (h.mcnt / nm c % c.n_input_blocks) fo small_mcnt (omega arith) near
      | no far ↦
          rw (dispatch-out_of_seq u now h f _ fo.ring small_mcnt (inl (omega arith)))
            (out_of_seq-Moves h fo small_mcnt (inl (omega arith)))
    ]
  ]

  -- In a usable build, while the hashpipe calls succeed: process_packet implements the window. On a frame
  -- of bytes, from a state that stands for a window once it is initialized, it returns; the new state
  -- stands for the window moved by the packet's mcnt; and what it returns is the first mcnt of the block
  -- that the window hands over, or -1 if there is none or the source ID is out of range; and the only calls
  -- on semaphores are, if a block is handed over, one that sets it filled and one that waits for the block
  -- after the next.
  -- In the model, whose blocks do not touch: see Confined for the frames of which this is so in memory.
  pub process_packet-Moves :
      (s : PktState hp) {w : Window} (now : ℕ × ℕ) (f : Frame)
      → IsFrame f
      → Follows c (prepared c s) w
      → Moves c (get_header c f) w s.db (process_packet c now f s)
  unfolding process_packet
  process_packet-Moves s now f b fo =
      rw (block_for_mcnt_lem u (get_header c f).mcnt)
        (dispatch-Moves now (get_header c f) f fo (mcnt-get_header c f b))

  -- In a usable build, while the hashpipe calls succeed: process_packet returns on every frame of
  -- bytes, from every state that keeps the ring once it is initialized, and its new state keeps the
  -- ring.
  pub process_packet-Inv :
      (s : PktState hp) {seq : ℕ} (now : ℕ × ℕ) (f : Frame)
      → IsFrame f
      → Inv c (prepared c s) seq
      → Returns c (process_packet c now f s)
  process_packet-Inv s {seq} now f b i =
      let w : Window = record { seq = seq; strays = (prepared c s).binfo.out_of_seq_cnt } in
      let (t, r, e, fo, _, _) =
        process_packet-Moves s {w = w} now f b (record { ring = i; strays = refl }) in
      (t, r, (move (shape c) (get_header c f).mcnt w).seq, e, fo.ring)
