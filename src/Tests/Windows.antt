-- ===== src/Tests/Windows.antt =====
-- The theorems that say that the packet threads implement the window, on concrete packets, and the
-- theorem on the init of a packet thread.
use serendip6_reobs.Base.{
  ℕ, ◌+◌, ◌*◌, ◌%◌, ◌≡◌, some, none, true, Option, arith, refl, ok, ◌>>=◌, List, [], ◌∷◌,
}
use serendip6_reobs.Databuf.{Rv}
use serendip6_reobs.Window.{move, moves, hands_over, all_handed_over}
use serendip6_reobs.Window.Order.{InTurn}
use serendip6_reobs.Packets.Ledger.{proper, held_at_start}
use serendip6_reobs.Config.{Source}
use serendip6_reobs.Packets.{semaphores_of, semaphores_along, semaphores_at_start}
use serendip6_reobs.Pktsock.{PktState}
use serendip6_reobs.Pktsock.Init.{InitKeys, InitCalls, InitEnd, Ready, AllSucceed, init, init_lem}
use serendip6_reobs.Pktsock.Header.{get_header}
use serendip6_reobs.Pktsock.Process.{process_packet}
use serendip6_reobs.Pktsock.Run.{start_blocks}
use serendip6_reobs.Pktsock.Trace.{Follows, prepared, shape, netmcnt_of}
use serendip6_reobs.Pktsock.Semaphores.{Uses}
use serendip6_reobs.Pktsock.Bounds.{SameBehind}
use serendip6_reobs.Pktsock.Confined.{process_packet-Moves_fast, process_all-moves_fast}
use serendip6_reobs.Pktsock.Start.{at_start, at_zero, mcnts_of, process_all, started-Follows}
use serendip6_reobs.Net.{NetState}
use serendip6_reobs.Net.Benchmark.{s6_memcpy_benchmark}
use serendip6_reobs.Net.Copy
use serendip6_reobs.Net.Process
use serendip6_reobs.Net.Run.{Loop, Received}
use serendip6_reobs.Net.Trace
use serendip6_reobs.Net.Start
use serendip6_reobs.Net.Rounds
use serendip6_reobs.Net.Bounds
use serendip6_reobs.Net.Confined
use serendip6_reobs.Tests.{
  calm, calm_calls, small, small_usable, zero_buffer, no_keys, frame_of, frame_of-Fits,
}
use serendip6_reobs.Tests.Packets.{begun, sent}
use serendip6_reobs.Tests.Udp.{
  tiny, tiny_usable, udp_of, udp_of-Fits, no_net_keys, plain, pair, net_loop,
}

process_packet-Moves_fast_example :
    let h = get_header small (frame_of 6 1) in
    let handed = hands_over (shape small) h.mcnt at_zero in
    (t : PktState calm) × (netmcnt : ℕ) × (process_packet small (0, 0) (frame_of 6 1) begun
      ≡ ok (t, netmcnt))
    × Follows small t (move (shape small) h.mcnt at_zero)
    × (netmcnt ≡ netmcnt_of small h.sid handed)
    × Uses small handed begun.db t.db
    × SameBehind 16384 begun.db t.db
process_packet-Moves_fast_example =
    process_packet-Moves_fast 16384 small_usable calm_calls begun (0, 0) (frame_of 6 1)
      (frame_of-Fits 6 1) (started-Follows small_usable calm_calls no_keys zero_buffer)

process_all-moves_fast_example :
    (t : PktState calm) × ((start_blocks small zero_buffer >>= λ db1.
    process_all small sent (at_start no_keys db1))
      ≡ ok t)
    × Follows small (prepared small t) (moves (shape small) (mcnts_of small sent) at_zero)
    × InTurn 4 0 (all_handed_over (shape small) (mcnts_of small sent) at_zero)
    × (t.db.header
        ≡ semaphores_along small calm
            (all_handed_over (shape small) (mcnts_of small sent) at_zero)
            (semaphores_at_start calm tt))
    × (proper 4 (all_handed_over (shape small) (mcnts_of small sent) at_zero) held_at_start ≡ true)
    × SameBehind 16384 zero_buffer t.db
process_all-moves_fast_example =
    process_all-moves_fast 16384 small_usable calm_calls no_keys zero_buffer sent
      (frame_of-Fits 0 1, (frame_of-Fits 6 1, (frame_of-Fits 1000 1, tt)))

-- The state of the net thread after its start and its benchmark.
abbrev benched : NetState calm
benched =
    Start.at_start no_net_keys
      (s6_memcpy_benchmark tiny (Start.started_blocks tiny_usable calm_calls zero_buffer)
        (udp_of 0 0)).0

process_packet-Moves_fitting_example :
    let h = Copy.get_header (udp_of 6 1) in
    let handed = hands_over (Trace.shape tiny) h.mcnt Start.at_zero in
    (t : NetState calm) × (netmcnt : ℕ) × (Process.process_packet tiny (udp_of 6 1) benched
      ≡ ok (t, netmcnt))
    × Trace.Follows tiny t (move (Trace.shape tiny) h.mcnt Start.at_zero)
    × (netmcnt ≡ Trace.netmcnt_of tiny h.sid handed)
    × (t.db.header ≡ semaphores_of tiny calm handed benched.db.header)
    × Bounds.SameBehind tiny benched.db t.db
process_packet-Moves_fitting_example =
    Confined.process_packet-Moves_fitting tiny_usable calm_calls benched (udp_of 6 1)
      (udp_of-Fits 6 1)
      (Start.started-Follows tiny_usable calm_calls no_net_keys (udp_of 0 0) zero_buffer)

abbrev vectors : List (Received × Option ℕ)
vectors = (pair, none) ∷ (pair, some 5) ∷ []

run-moves_fitting_example :
    (l1 : Loop calm) × (Rounds.run tiny plain Rv.hashpipe_ok no_net_keys
        (udp_of 0 0)
        zero_buffer
        vectors
        net_loop
      ≡ ok l1)
    × Trace.Follows tiny
        (Trace.prepared tiny l1.pkt)
        (moves (Trace.shape tiny) (Start.mcnts_of (Rounds.all_packets vectors)) Start.at_zero)
    × InTurn 3 0 (
        all_handed_over
          (Trace.shape tiny)
          (Start.mcnts_of (Rounds.all_packets vectors))
          Start.at_zero)
    × (l1.pkt.db.header
        ≡ semaphores_along tiny calm
            (all_handed_over
              (Trace.shape tiny)
              (Start.mcnts_of (Rounds.all_packets vectors))
              Start.at_zero)
            (semaphores_at_start calm tt))
    × (proper 3
          (all_handed_over
            (Trace.shape tiny)
            (Start.mcnts_of (Rounds.all_packets vectors))
            Start.at_zero)
          held_at_start
        ≡ true)
    × Bounds.SameBehind tiny zero_buffer l1.pkt.db
run-moves_fitting_example =
    Confined.run-moves_fitting tiny_usable calm_calls plain no_net_keys (udp_of 0 0) zero_buffer
      vectors net_loop refl
      (
        (udp_of-Fits 0 0, (udp_of-Fits 6 1, tt)),
        omega arith,
        ((udp_of-Fits 0 0, (udp_of-Fits 6 1, tt)), omega arith, tt),
      )

abbrev given : InitKeys
given = record { bindport = some 5000; fastbeam = some 3; fastpol = some 1 }

abbrev fine : InitCalls
fine = record { malloc = true; open_pktsock = true; open_socket = true; bind = true; join = true }

init_lem_example :
    ((beam pol : ℕ)
      → AllSucceed fine
      → given.fastbeam ≡ some beam
      → given.fastpol ≡ some pol
      → (r : Ready) × (init Source.source_fast given fine ≡ InitEnd.ready r))
    × ((r : Ready)
        → init Source.source_fast given fine ≡ InitEnd.ready r
        → AllSucceed fine
          × (beam : ℕ) × (pol : ℕ) × (given.fastbeam ≡ some beam)
          × (given.fastpol ≡ some pol)
          × (r.group ≡ (239, 1, beam, 3 + pol))
          × (r.sin_port ≡ 12346)
          × (r.nframes * r.frame_size % r.nblocks ≡ 0))
init_lem_example = init_lem given fine
