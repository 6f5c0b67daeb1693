-- ===== src/Pktsock.antt =====
-- src/s6_pktsock_thread.cpp: packets from a packet socket into the blocks of the input buffer.
-- This file has the constants, the frame and the state; the children have the functions, in the
-- order of the source, and what is proved of them.
pub mod Header
pub mod Block
pub mod Process
pub mod Ring
pub mod Finish
pub mod Reset
pub mod Invariant
pub mod Semaphores
pub mod Trace
pub mod Run
pub mod Owned
pub mod Handed
pub mod Written
pub mod Assembly
pub mod Payloads
pub mod Bounds
pub mod Rounds
pub mod Confined
pub mod Layout
pub mod Init
pub mod Start
pub mod Results
pub mod Stored
pub mod Missed
pub mod Counting
use serendip6_reobs.Base.{
  ℕ, suc, ◌+◌, ◌*◌, ◌/◌, ◌%◌, ◌^◌, ◌≡◌, Bool, Option, none, some, List, [], ◌∷◌, Result, ok, err,
  Fault, ◌==◌, if◌then◌else◌, update,
}
use serendip6_reobs.Config.{Config, Source}
use serendip6_reobs.Databuf.{Hashpipe, InputDatabuf, InputBlock}
use serendip6_reobs.Packets.{BlockInfo, Message}

-- A frame of the socket, as PKT_UDP_SIZE and PKT_UDP_DATA show it: the length that the UDP header
-- states, its own 8 bytes included, and the bytes behind that header.
pub record Frame : Type 0 where
  pub udp_size : ℕ
  pub udp_data : ℕ → ℕ

-- The keys of the status buffer that process_packet reads or writes; `none` is a missing key.
pub record Status : Type 0 where
  pub netbkout : Option ℕ
  pub missedbm : Option ℕ
  pub missedpk : Option ℕ
  pub schan : Option ℕ
  pub nchan : Option ℕ

-- The static variables, the shared memory, and the messages printed so far, the latest first.
-- `last_filled` is the int of that name, `none` for its first value -1.
pub record PktState (hp : Hashpipe) : Type 0 where
  pub binfo : BlockInfo
  pub last_filled : Option ℕ
  pub db : InputDatabuf hp
  pub status : Status
  pub messages : List Message

module _ (c : Config) where
  -- Number of mcnts per block.
  abbrev pub nm : ℕ
  nm = c.n_time_samples / c.n_spectra_per_packet

  -- An unsigned int.
  abbrev pub n_packets_per_block : ℕ
  n_packets_per_block = nm * c.n_beams % 2 ^ 32

  abbrev pub n_bytes_per_chan : ℕ
  n_bytes_per_chan = elim c.source [
    | Source.source_fast ↦ 1
    | Source.source_s6 ↦ 4
    | Source.source_dibas ↦ 4
  ]

  abbrev pub max_out_of_seq : ℕ
  max_out_of_seq = 2 * c.n_bors

  abbrev pub late_pkt_mcnt_threshold : ℕ
  late_pkt_mcnt_threshold = 2 * nm * c.n_input_blocks

module _ {hp : Hashpipe} where
  abbrev pub set_block : InputDatabuf hp → ℕ → InputBlock → InputDatabuf hp
  set_block db i b = record db { block = update db.block i b }

  abbrev pub say : Message → PktState hp → PktState hp
  say m s = record s { messages = m ∷ s.messages }
