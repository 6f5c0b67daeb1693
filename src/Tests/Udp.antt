-- ===== src/Tests/Udp.antt =====
-- The theorems on the net thread and its log, on a build of SOURCE_S6 with two beams, four mcnts in a
-- block and eight coarse channels.
use serendip6_reobs.Base.{
  ℕ, ◌+◌, ◌-◌, ◌*◌, ◌/◌, ◌%◌, ◌^◌, ◌<◌, ◌≤◌, ◌≡◌, ◌⊎◌, inl, some, none, arith, refl, ltb, ◌==◌,
  if◌then◌else◌, ok, err, List, [], ◌∷◌, ◌++◌, length,
}
use serendip6_reobs.Config.{Config, s6}
use serendip6_reobs.Databuf.Input.{s6_input_databuf_set_filled, s6_input_databuf_busywait_free}
use serendip6_reobs.Packets.{PacketHeader}
use serendip6_reobs.Packets.Stats.{Times, no_stats}
use serendip6_reobs.Pktsock.Header.{word_be}
use serendip6_reobs.Logger.{Log, log_line, log_size, logger, HasRoom, logger_fits}
use serendip6_reobs.Net.{UdpPacket, NetState, Status}
use serendip6_reobs.Net.Copy.{get_header}
use serendip6_reobs.Net.Block.{
  block_for_mcnt, initialize_block_info, initialize_block, set_block_filled, calc_block_indexes,
}
use serendip6_reobs.Net.Process.{take_packet, dispatch, process_packet, store_packet, finish_block}
use serendip6_reobs.Net.Ring.{IsUsable, Inv}
use serendip6_reobs.Net.Trace.{IsUdpPacket, prepared}
use serendip6_reobs.Net.Bounds.{Fits}
use serendip6_reobs.Net.Benchmark.{bench_stats, IsTime, bench_stats_lem}
use serendip6_reobs.Net.Run.{Sprintf, Loop, Received, log_vector}
use serendip6_reobs.Net.Logging.{Stopped, Continued, line_of, log_vector_lem}
use serendip6_reobs.Net.Start.{at_start, started_blocks, started-Inv}
use serendip6_reobs.Net.Stored.{
  FitsSlot, store_packet-kept, store_packet-runt, process_packet-stored,
}
use serendip6_reobs.Tests.{calm, calm_calls, zero_buffer, zero_block}

abbrev pub tiny : Config
tiny = record s6 { n_beams = 2; n_fine_chan = 4; n_coarse_chan = 8 }

pub tiny_usable : IsUsable tiny
tiny_usable = record { mcnts = omega arith; blocks = omega arith; small = omega arith }

-- A packet with 32 bytes of payload: the header word stands at byte 8.
abbrev pub udp_of : (mcnt sid : ℕ) → UdpPacket
udp_of mcnt sid = record {
  packet_size = 48;
  bytes = λ i.
      if ltb i 8
      then 0
      else if ltb i 14
      then mcnt / 256 ^ (13 - i) % 256
      else if i == 14
      then 0
      else if i == 15
      then sid % 16
      else i % 256;
}

pub udp_of-IsUdpPacket : (mcnt sid : ℕ) → IsUdpPacket (udp_of mcnt sid)
udp_of-IsUdpPacket mcnt sid = record { byte = λ i. ground arith }

pub udp_of-Fits : (mcnt sid : ℕ) → Fits tiny (udp_of mcnt sid)
udp_of-Fits mcnt sid = record {
  bytes = udp_of-IsUdpPacket mcnt sid;
  lower = omega arith;
  upper = omega arith;
  small = omega arith;
}

udp_of-FitsSlot : (mcnt sid : ℕ) → FitsSlot tiny (udp_of mcnt sid)
udp_of-FitsSlot mcnt sid = record { size = refl; words = refl; small = omega arith }

abbrev pub no_net_keys : Status
no_net_keys = record { netbkout = none; misspktl = none; schan = none; nchan = none }

-- The state of the thread after its start.
abbrev pub net_begun : NetState calm
net_begun = at_start no_net_keys (started_blocks tiny_usable calm_calls zero_buffer)

net_begun-Inv : Inv tiny (prepared tiny net_begun) 0
net_begun-Inv = started-Inv tiny_usable calm_calls no_net_keys zero_buffer

process_packet-stored_example :
    (elim (process_packet tiny (udp_of 6 1) net_begun) as (λ _. ℕ) [
      | ok p ↦ (p.0.db.block 1).bytes (192 + 9)
      | err e ↦ 0
    ])
    ≡ 25
unfolding process_packet dispatch block_for_mcnt initialize_block_info get_header word_be
    take_packet calc_block_indexes store_packet finish_block set_block_filled initialize_block
    s6_input_databuf_set_filled s6_input_databuf_busywait_free
process_packet-stored_example =
    process_packet-stored tiny_usable calm_calls net_begun (udp_of 6 1) 9 (udp_of-IsUdpPacket 6 1)
      (udp_of-FitsSlot 6 1) net_begun-Inv refl (omega arith) (omega arith) (omega arith)
      (omega arith)

abbrev header_of : (mcnt sid : ℕ) → PacketHeader
header_of mcnt sid = record { mcnt = mcnt; pchan = 0; nchan = 8; sid = sid }

store_packet-kept_example :
    (store_packet tiny
        (header_of 6 1)
        (udp_of 6 1)
        (store_packet tiny (header_of 6 0) (udp_of 6 0) zero_block)).bytes
      (64 + 3)
    ≡ 19
store_packet-kept_example =
    store_packet-kept (header_of 6 0) (header_of 6 1) zero_block 3 (omega arith)
      (udp_of-FitsSlot 6 0) (udp_of-FitsSlot 6 1) (omega arith) (inl (omega arith))

-- A packet of 8 bytes, for the last place of a block.
abbrev runt : UdpPacket
runt = record (udp_of 7 1) { packet_size = 8 }

store_packet-runt_example :
    (store_packet tiny (header_of 7 1) runt zero_block).bytes (224 + 5000) ≡ 5016 % 256
store_packet-runt_example =
    store_packet-runt tiny (header_of 7 1) runt zero_block 5000 (omega arith) (omega arith)

-- The first packet of a block takes longest, the last is next to nothing.
abbrev falling : (sid pkt_mcnt : ℕ) → ℕ
falling sid pkt_mcnt = 1000 - 100 * sid - pkt_mcnt

bench_stats_lem_example :
    let s = bench_stats tiny falling in
    (s.max_packet_ns ≡ 897)
    × ((sid pkt_mcnt : ℕ) → sid < 2 → pkt_mcnt < 4 → s.min_packet_ns ≤ falling sid pkt_mcnt)
    × (s.min_packet_ns ≤ 999999)
    × IsTime 2 4 falling s.min_packet_ns
bench_stats_lem_example = bench_stats_lem tiny falling (omega arith) (omega arith)

-- Texts as in the format "%05d": here two digits.
abbrev two_digits : ℕ → List ℕ
two_digits n = (48 + n / 10 % 10) ∷ (48 + n % 10) ∷ []

abbrev one_line : Log
one_line = record { text = 48 ∷ 49 ∷ 32 ∷ 32 ∷ 65 ∷ 10 ∷ []; num_lines = 1; written = [] }

logger_fits_example :
    let text = one_line.text ++ log_line two_digits 2 (66 ∷ []) in
    (length text + 1 ≤ log_size) × HasRoom (logger two_digits (66 ∷ []) 2 one_line).0
logger_fits_example =
    logger_fits two_digits (66 ∷ []) 2 one_line (record { room = omega arith }) (omega arith)
      (omega arith)

abbrev pub plain : Sprintf
plain = record { line_number = two_digits; log_message = λ n. (65 + n.recv_cnt) ∷ [] }

abbrev pub no_time : Times
no_time = record { wait_ns = 10; recv_ns = 20; proc_ns = 30 }

-- Two packets at once.
abbrev pub pair : Received
pair = record {
  wait_loop_cnt = 0;
  vector = some (udp_of 0 0 ∷ udp_of 6 1 ∷ []);
  times = no_time;
  runtime_ns = 50;
}

-- A loop that is to log two lines.
abbrev pub net_loop : Loop calm
net_loop = record {
  pkt = net_begun;
  packet_size = 48;
  head = udp_of 0 0;
  stats = no_stats;
  report = record { netmcnt = none; netmin = no_time; netmax = no_time; netlogln = 2 };
  log = one_line;
  net_log_lines = 2;
  first_log_line = 0;
}

log_vector_lem_example :
    (l1 : Loop calm) × (log_vector plain pair net_loop ≡ ok l1)
    × (l1.pkt ≡ net_loop.pkt)
    × (l1.packet_size ≡ 48)
    × (l1.log.written ++ l1.log.text ≡ one_line.text ++ line_of plain pair net_loop)
    × (Stopped plain pair net_loop l1 ⊎ Continued plain pair net_loop l1)
log_vector_lem_example = log_vector_lem plain pair net_loop (omega arith) (omega arith)
