-- ===== src/Tests/Packets.antt =====
-- The theorems on the packet threads, on concrete packets.
use serendip6_reobs.Base.{
  ℕ, ◌+◌, ◌/◌, ◌%◌, ◌<◌, ◌≤◌, ◌≡◌, ◌≢◌, ◌*◌, ◌⊎◌, some, none, arith, refl, sub32, ok, err, Fault,
  ◌>>=◌, List, [], ◌∷◌,
}
use serendip6_reobs.Config.{Source, fast, n_data_bytes_per_block}
use serendip6_reobs.Databuf.Input.{s6_input_databuf_set_filled, s6_input_databuf_busywait_free}
use serendip6_reobs.Packets.{PacketHeader, no_block, memcpy}
use serendip6_reobs.Pktsock.{Frame, PktState, nm}
use serendip6_reobs.Pktsock.Header.{get_header, decode, word_le, word_be}
use serendip6_reobs.Pktsock.Block.{
  initialize_block_info, block_for_mcnt, initialize_block, calc_block_indexes, set_block_filled,
  count_missed,
}
use serendip6_reobs.Pktsock.Process.{
  take_packet, reset, dispatch, process_packet, store_packet, place, fast_offset, finish_block,
}
use serendip6_reobs.Pktsock.Ring.{Inv}
use serendip6_reobs.Pktsock.Reset.{restarted}
use serendip6_reobs.Pktsock.Invariant.{reset_lem}
use serendip6_reobs.Pktsock.Trace.{prepared}
use serendip6_reobs.Pktsock.Bounds.{SameBehind}
use serendip6_reobs.Pktsock.Confined.{
  process_packet-elsewhere_fast, process_all-Counts_fast, run-moves_fast,
}
use serendip6_reobs.Pktsock.Layout.{get_header-fast_frame, place-fast, place-overrun}
use serendip6_reobs.Pktsock.Stored.{process_packet-stores}
use serendip6_reobs.Pktsock.Missed.{Counts, missedbm-count_missed}
use serendip6_reobs.Pktsock.Start.{
  at_start, started_blocks, started-Inv, process_all, start_blocks-trap,
}
use serendip6_reobs.Pktsock.Results.{bad_sid_hides_block}
use serendip6_reobs.Pktsock.Run.{start_blocks, wrong_size, Loop}
use serendip6_reobs.Packets.Stats.{no_stats}
use serendip6_reobs.Packets.{semaphores_along, semaphores_at_start}
use serendip6_reobs.Window.{moves, all_handed_over}
use serendip6_reobs.Window.Order.{InTurn}
use serendip6_reobs.Pktsock.Rounds.{Arrival, run}
use serendip6_reobs.Pktsock.Layout.{fast_frame}
use serendip6_reobs.Pktsock.Start.{at_zero}
use serendip6_reobs.Pktsock.Trace.{IsFrame, Follows, shape}
use serendip6_reobs.Net.Copy.{s6_memcpy, s6_memcpy-memcpy}
use serendip6_reobs.Tests.{
  calm, calm_calls, small, small_usable, zero_buffer, no_keys, frame_of, frame_of-IsFrame,
  frame_of-Fits,
}

-- The state of the thread after its start.
abbrev pub begun : PktState calm
begun = at_start no_keys (started_blocks small_usable calm_calls zero_buffer)

begun-Inv : Inv small (prepared small begun) 0
begun-Inv = started-Inv small_usable calm_calls no_keys zero_buffer

abbrev pub sent : List ((ℕ × ℕ) × Frame)
sent = ((0, 0), frame_of 0 1) ∷ ((0, 0), frame_of 6 1) ∷ ((0, 0), frame_of 1000 1) ∷ []

-- The state after a frame.
abbrev after : Frame → PktState calm
after f = elim (process_packet small (0, 0) f begun) [ ok p ↦ p.0 | err e ↦ begun ]

process_packet-elsewhere_fast_example :
    ((j : ℕ)
      → j ≢ 0 % 4
      → j ≢ (0 + 1) % 4
      → (j ≢ (0 + 2) % 4)
        ⊎ (((get_header small (frame_of 2 1)).mcnt < 0 * nm small + 3 * (nm small / 2))
            ⊎ (0 * nm small + 2 * nm small ≤ (get_header small (frame_of 2 1)).mcnt))
      → (after (frame_of 2 1)).db.block j ≡ begun.db.block j)
    × SameBehind 16384 begun.db (after (frame_of 2 1)).db
unfolding process_packet dispatch block_for_mcnt initialize_block_info get_header decode word_be
    word_le take_packet calc_block_indexes store_packet place finish_block set_block_filled
    count_missed initialize_block s6_input_databuf_set_filled s6_input_databuf_busywait_free memcpy
process_packet-elsewhere_fast_example =
    process_packet-elsewhere_fast 16384 small_usable calm_calls begun (0, 0) (frame_of 2 1)
      (frame_of-Fits 2 1) begun-Inv refl

bad_sid_hides_block_example : (no_block ≡ no_block) × ((after (frame_of 6 21)).last_filled ≡ some 0)
unfolding process_packet dispatch block_for_mcnt initialize_block_info get_header decode word_be
    word_le take_packet calc_block_indexes store_packet place finish_block set_block_filled
    count_missed initialize_block s6_input_databuf_set_filled s6_input_databuf_busywait_free memcpy
bad_sid_hides_block_example =
    bad_sid_hides_block small_usable calm_calls begun (0, 0) (frame_of 6 21) (frame_of-IsFrame 6 21)
      begun-Inv refl (omega arith) (omega arith) (omega arith)

-- The header of a packet far ahead of block 0.
abbrev far : PacketHeader
far = record { mcnt = 1000; pchan = 0; nchan = 4096; sid = 0 }

reset_lem_example :
    (reset small (1000 / nm small % 4) far (prepared small begun)
      ≡ ok (restarted small_usable 252 1008 far (prepared small begun)))
    × Inv small (restarted small_usable 252 1008 far (prepared small begun)) 252
    × (◌≡◌ {A = ℕ} (252 % 4) 0)
unfolding initialize_block_info
reset_lem_example = reset_lem small_usable far begun-Inv (omega arith)

place-fast_example :
    place small Source.source_fast far
      (frame_of 1000 1)
      (place small Source.source_fast (record far { mcnt = 1001 }) (frame_of 1001 1) (λ j. 0))
      (fast_offset small 1001 + 5)
    ≡ 5
place-fast_example =
    place-fast 16384 (record far { mcnt = 1001 }) far (frame_of 1001 1) (frame_of 1000 1) (λ j. 0) 5
      (omega arith) (omega arith) (omega arith) (omega arith) (omega arith) (omega arith)
      (omega arith)

get_header-fast_frame_example :
    let h = get_header small (frame_of 1000 19) in
    (h.mcnt ≡ 1000)
    × (h.sid % 2 ≡ 0)
    × (1 ≤ 19 → h.sid / 2 + 1 ≡ 19)
    × (1 ≤ 19 → 19 ≤ 19 → h.sid < 38)
    × (h.sid < 38 → (1 ≤ 19) × (19 ≤ 19))
get_header-fast_frame_example =
    get_header-fast_frame 16384 4112 1000 0 19 0 (λ i. i % 256) (omega arith) (omega arith)
      (omega arith) (omega arith)

place-overrun_example :
    place small Source.source_fast
      (record far { mcnt = 1003 })
      (record (frame_of 1003 1) { udp_size = 4136 })
      (λ j. 0)
      (n_data_bytes_per_block small + 7)
    ≡ 4103 % 256
unfolding wrong_size
place-overrun_example =
    place-overrun 4 (record far { mcnt = 1003 }) (record (frame_of 1003 1) { udp_size = 4136 })
      (λ j. 0) 7 (omega arith) (omega arith) refl refl

start_blocks-trap_example : start_blocks fast zero_buffer ≡ err Fault.div_by_zero
start_blocks-trap_example = start_blocks-trap fast zero_buffer calm_calls (omega arith)

abbrev looping : Loop calm
looping = record {
  pkt = begun;
  stats = no_stats;
  report = record {
    netmcnt = none;
    netmin = no_stats.least;
    netmax = no_stats.most;
    netpkts = 0;
    netdrops = 0;
    netpkttl = 0;
    netdrptl = 0;
    dumpvolt = 0;
  };
  held = 0;
  bad_sizes = 0;
  dumps = 0;
}

s6_memcpy-memcpy_example :
    s6_memcpy (λ j. 0) 3 (λ j. j) 1 70 66 ≡ memcpy (λ j. 0) 3 (λ j. j) 1 64 66
s6_memcpy-memcpy_example = s6_memcpy-memcpy (λ j. 0) 3 (λ j. j) 1 70 66

process_packet-stores_example :
    (elim (process_packet small (0, 0) (frame_of 6 1) begun) as (λ _. ℕ) [
      | ok p ↦ (p.0.db.block 1).bytes (8192 + 9)
      | err e ↦ 0
    ])
    ≡ 9
unfolding process_packet dispatch block_for_mcnt initialize_block_info get_header decode word_be
    word_le take_packet calc_block_indexes store_packet place finish_block set_block_filled
    count_missed initialize_block s6_input_databuf_set_filled s6_input_databuf_busywait_free memcpy
process_packet-stores_example =
    process_packet-stores 16384 small_usable calm_calls begun (0, 0) (frame_of 6 1) 9
      (frame_of-IsFrame 6 1) begun-Inv refl (omega arith) (omega arith) (omega arith) (omega arith)
      (omega arith) (omega arith)

process_all-Counts_fast_example :
    (t : PktState calm) × (last : ℕ) × ((start_blocks small zero_buffer >>= λ db1.
    process_all small sent (at_start no_keys db1))
      ≡ ok t)
    × Inv small (prepared small t) last
    × Counts small (prepared small t) last
    × SameBehind 16384 zero_buffer t.db
unfolding get_header decode word_be word_le
process_all-Counts_fast_example =
    process_all-Counts_fast 16384 small_usable calm_calls no_keys zero_buffer sent
      (frame_of-Fits 0 1, (frame_of-Fits 6 1, (frame_of-Fits 1000 1, tt)))
      (omega arith, (omega arith, (omega arith, tt)))

missedbm-count_missed_example :
    let after = count_missed small 2 (sub32 76 4) begun.binfo no_keys in
    (after.missedbm ≡ some 18) × (after.missedpk ≡ none)
missedbm-count_missed_example =
    missedbm-count_missed 16384 2 begun.binfo no_keys (omega arith) (omega arith)

-- A frame of 10 bytes, which is refused, then two that are taken.
abbrev arrivals : List Arrival
arrivals =
    record {
      now = (0, 0);
      times = no_stats.most;
      pkts = 3;
      drops = 0;
      frame = fast_frame 10 0 (λ i. 0);
    }
    ∷ record { now = (0, 0); times = no_stats.most; pkts = 3; drops = 0; frame = frame_of 2 1 }
    ∷ record { now = (0, 0); times = no_stats.most; pkts = 3; drops = 1; frame = frame_of 6 1 }
    ∷ []

short-IsFrame : IsFrame (fast_frame 10 0 (λ i. 0))
short-IsFrame = record { byte = λ i. ground arith }

run-moves_fast_example :
    (t : Loop calm) × (run small no_keys 2 zero_buffer arrivals looping ≡ ok t)
    × Follows small (prepared small t.pkt) (moves (shape small) (2 ∷ 6 ∷ []) at_zero)
    × (t.pkt.db.header
        ≡ semaphores_along small calm
            (all_handed_over (shape small) (2 ∷ 6 ∷ []) at_zero)
            (semaphores_at_start calm tt))
    × InTurn 4 0 (all_handed_over (shape small) (2 ∷ 6 ∷ []) at_zero)
    × SameBehind 16384 zero_buffer t.pkt.db
    × (t.held ≡ 1)
    × (t.bad_sizes ≡ 1)
unfolding wrong_size get_header decode word_be word_le
run-moves_fast_example =
    run-moves_fast 16384 small_usable calm_calls no_keys 2 zero_buffer arrivals looping (
      short-IsFrame,
      omega arith,
      (frame_of-IsFrame 2 1, omega arith, (frame_of-IsFrame 6 1, omega arith, tt)),
    )
