-- ===== src/Net.antt =====
-- src/s6_net_thread.cpp: packets from a UDP socket into the blocks of the input buffer. This file has
-- the constants, the packet and the state; the children have the functions, in the order of the
-- source, and what is proved of them. The thread is the one of SOURCE_S6.
pub mod Copy
pub mod Block
pub mod Process
pub mod Ring
pub mod Finish
pub mod Reset
pub mod Invariant
pub mod Semaphores
pub mod Trace
pub mod Benchmark
pub mod Untouched
pub mod Run
pub mod Logging
pub mod Start
pub mod Bounds
pub mod Rounds
pub mod Confined
pub mod Stored
use serendip6_reobs.Base.{ℕ, ◌*◌, ◌%◌, ◌^◌, Option, List, ◌∷◌, update}
use serendip6_reobs.Config.{Config}
use serendip6_reobs.Databuf.{Hashpipe, InputDatabuf, InputBlock}
use serendip6_reobs.Packets.{BlockInfo, Message}

-- A hashpipe_udp_packet: the bytes of `data`, into which a packet is received from the eighth byte on,
-- and the number of bytes received.
pub record UdpPacket : Type 0 where
  pub packet_size : ℕ
  pub bytes : ℕ → ℕ

-- The keys of the status buffer that process_packet writes, but for those that hold floats.
pub record Status : Type 0 where
  pub netbkout : Option ℕ
  pub misspktl : Option ℕ
  pub schan : Option ℕ
  pub nchan : Option ℕ

-- The static variables, the shared memory, and the messages printed so far, the latest first.
pub record NetState (hp : Hashpipe) : Type 0 where
  pub binfo : BlockInfo
  pub last_filled : Option ℕ
  pub missed_pkt_cnt : ℕ
  pub total_missed_pkts : ℕ → ℕ
  pub db : InputDatabuf hp
  pub status : Status
  pub messages : List Message

module _ (c : Config) where
  -- Number of mcnts per block.
  abbrev pub nm : ℕ
  nm = c.n_fine_chan

  -- An unsigned int.
  abbrev pub n_packets_per_block : ℕ
  n_packets_per_block = nm * c.n_beams % 2 ^ 32

  abbrev pub max_out_of_seq : ℕ
  max_out_of_seq = 2 * c.n_beams

  abbrev pub late_pkt_mcnt_threshold : ℕ
  late_pkt_mcnt_threshold = 2 * nm * c.n_input_blocks

abbrev pub n_bytes_per_chan : ℕ
n_bytes_per_chan = 4

module _ {hp : Hashpipe} where
  abbrev pub set_block : InputDatabuf hp → ℕ → InputBlock → InputDatabuf hp
  set_block db i b = record db { block = update db.block i b }

  abbrev pub say : Message → NetState hp → NetState hp
  say m s = record s { messages = m ∷ s.messages }
