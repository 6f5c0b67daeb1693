-- ===== src/Net/Start.antt =====
-- The start of the thread, and the packets of one vector.
use serendip6_reobs.Base.{
  ℕ, ◌%◌, ◌≡◌, refl, ap, ◌∙◌, none, ok, arith, List, [], ◌∷◌, ◌==◌, if◌then◌else◌, sym,
}
use serendip6_reobs.Base.Arith.{mod-eq, mod_small}
use serendip6_reobs.Window.{all_handed_over, Window, move, moves, hands_over}
use serendip6_reobs.Config.{Config}
use serendip6_reobs.Databuf.{Rv, Hashpipe, InputDatabuf}
use serendip6_reobs.Databuf.Input.{s6_input_databuf_busywait_free}
use serendip6_reobs.Packets.Semaphores.{semaphores_along-step}
use serendip6_reobs.Packets.{semaphores_at_start, semaphores_along, zero_block_info, no_block}
use serendip6_reobs.Net.{UdpPacket, Status, NetState, nm, set_block}
use serendip6_reobs.Net.Copy.{get_header}
use serendip6_reobs.Net.Block.{initialize_block_info}
use serendip6_reobs.Net.Benchmark.{s6_memcpy_benchmark}
use serendip6_reobs.Net.Untouched.{s6_memcpy_benchmark-Untouched}
use serendip6_reobs.Net.Ring.{IsUsable, Inv, CallsSucceed, initialize_block_lem, fresh_block}
use serendip6_reobs.Net.Trace.{
  IsUdpPacket, prepared, Follows, shape, netmcnt_of, process_packet-Moves_net,
}
use serendip6_reobs.Net.Run.{start_blocks, process_vector}

-- The state of a thread that has started its blocks.
abbrev pub at_start : {hp : Hashpipe} → Status → InputDatabuf hp → NetState hp
at_start st db = record {
  binfo = zero_block_info;
  last_filled = none;
  missed_pkt_cnt = 0;
  total_missed_pkts = λ _. 0;
  db = db;
  status = st;
  messages = [];
}

-- All the packets hold bytes.
abbrev pub AreUdpPackets : List UdpPacket → Type 0
AreUdpPackets [] = Unit
AreUdpPackets (p ∷ ps) = IsUdpPacket p × AreUdpPackets ps

-- The mcnts of the packets.
abbrev pub mcnts_of : List UdpPacket → List ℕ
mcnts_of [] = []
mcnts_of (p ∷ ps) = (get_header p).mcnt ∷ mcnts_of ps

-- The window at the start.
abbrev pub at_zero : Window
at_zero = record { seq = 0; strays = 0 }

-- The mcnt that is reported for a vector: the last that is not -1, or the one before the vector.
abbrev pub reported : Config → List UdpPacket → (mcnt : ℕ) → Window → ℕ
reported c [] mcnt w = mcnt
reported c (p ∷ ps) mcnt w =
    let h = get_header p in
    let this_mcnt = netmcnt_of c h.sid (hands_over (shape c) h.mcnt w) in
    reported c ps (if this_mcnt == no_block then mcnt else this_mcnt) (move (shape c) h.mcnt w)

module _ {c : Config} (u : IsUsable c) {hp : Hashpipe} (k : CallsSucceed hp) where
  open u use {mcnts, blocks, small}

  -- The buffer after the two waits.
  abbrev acquired : InputDatabuf hp → InputDatabuf hp
  acquired db = (s6_input_databuf_busywait_free (s6_input_databuf_busywait_free db 0).1 1).1

  abbrev first_block : InputDatabuf hp → InputDatabuf hp
  first_block db = set_block (acquired db) 0 (fresh_block c 0 0 0 ((acquired db).block 0))

  abbrev pub started_blocks : InputDatabuf hp → InputDatabuf hp
  started_blocks db =
      set_block (first_block db) 1 (fresh_block c (nm c) 0 0 ((first_block db).block 1))

  pub start_blocks_lem :
      (db : InputDatabuf hp) → start_blocks c Rv.hashpipe_ok db ≡ ok (started_blocks db)
  unfolding start_blocks s6_input_databuf_busywait_free
  start_blocks_lem db = ground (
    arith,
    k.freed db.header 0,
    k.freed (hp.busywait_free db.header 0).1 1,
    mod_small 0 c.n_input_blocks,
    mod_small 1 c.n_input_blocks,
    initialize_block_lem u 0 0 0 0 (acquired db),
    initialize_block_lem u (nm c) 1 0 0 (first_block db),
  )

  pub started-Inv :
      (st : Status) (db : InputDatabuf hp) → Inv c (prepared c (at_start st (started_blocks db))) 0
  unfolding initialize_block_info s6_input_databuf_busywait_free
  started-Inv st db = ground (
    arith,
    mod_small 0 c.n_input_blocks,
    mod_small 1 c.n_input_blocks,
    mod-eq 0 0 (nm c),
    mod-eq (nm c) 1 (nm c),
  )

  -- The start sets up the ring with block number 0 current, and the benchmark leaves it.
  pub started-Follows :
      (st : Status) (p : UdpPacket) (db : InputDatabuf hp)
      → Follows c (prepared c (at_start st (s6_memcpy_benchmark c (started_blocks db) p).0)) at_zero
  unfolding initialize_block_info
  started-Follows st p db =
      let i = started-Inv st db in
      let same = (s6_memcpy_benchmark-Untouched c (started_blocks db) p (omega arith)).headers in
      record {
        ring = record {
          started = i.started;
          start = i.start;
          current = i.current;
          bound = i.bound;
          order = i.order;
          quiet = i.quiet;
          cur_header = ap (λ h. h.mcnt) (same (0 % c.n_input_blocks)) ∙ i.cur_header;
          next_header = ap (λ h. h.mcnt) (same (1 % c.n_input_blocks)) ∙ i.next_header;
        };
        strays = refl;
      }

  -- The semaphores then.
  pub semaphores-started :
      (p : UdpPacket) (db : InputDatabuf hp)
      → (s6_memcpy_benchmark c (started_blocks db) p).0.header ≡ semaphores_at_start hp db.header
  unfolding s6_input_databuf_busywait_free
  semaphores-started p db =
      (s6_memcpy_benchmark-Untouched c (started_blocks db) p (omega arith)).semaphores

  prepared-Inv : {s : NetState hp} {seq : ℕ} → Inv c s seq → Inv c (prepared c s) seq
  unfolding initialize_block_info
  prepared-Inv i = ground arith

  pub prepared-Follows : {s : NetState hp} {w : Window} → Follows c s w → Follows c (prepared c s) w
  unfolding initialize_block_info
  prepared-Follows fo =
      let started = fo.ring.started in record { ring = prepared-Inv fo.ring; strays = ground arith }

  pub process_vector-Follows :
      (ps : List UdpPacket) (mcnt : ℕ) (s : NetState hp) (w : Window)
      → AreUdpPackets ps
      → Follows c (prepared c s) w
      → (t : NetState hp) × (process_vector c ps mcnt s ≡ ok (t, reported c ps mcnt w))
        × Follows c (prepared c t) (moves (shape c) (mcnts_of ps) w)
        × (t.db.header
            ≡ semaphores_along c hp (all_handed_over (shape c) (mcnts_of ps) w) s.db.header)
  unfolding process_vector moves all_handed_over
  process_vector-Follows [] mcnt s w b fo = (s, refl, fo, refl)
  process_vector-Follows (p ∷ ps) mcnt s w b fo =
      let first = (get_header p).mcnt in
      let this = netmcnt_of c (get_header p).sid (hands_over (shape c) first w) in
      let (s1, this_mcnt, e, fo1, same, sems) = process_packet-Moves_net u k s p b.0 fo in
      let (t, e1, fo2, more) =
        process_vector-Follows ps (if this == no_block then mcnt else this) s1
          (move (shape c) first w) b.1 (prepared-Follows fo1) in
      (
        t,
        rw (e, same) e1,
        fo2,
        more
            ∙ ap
                (semaphores_along c hp
                  (all_handed_over (shape c) (mcnts_of ps) (move (shape c) first w)))
                sems
            ∙ sym (semaphores_along-step c hp (shape c) first (mcnts_of ps) w s.db.header),
      )
