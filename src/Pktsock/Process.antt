-- ===== src/Pktsock/Process.antt =====
-- process_packet of src/s6_pktsock_thread.cpp, one definition for each part of its body.
use serendip6_reobs.Base.{
  ℕ, zero, suc, ◌+◌, ◌-◌, ◌*◌, ◌/◌, ◌%◌, ◌^◌, Result, ok, err, Fault, ◌>>=◌, ltb, leb, ◌==◌, ◌&&◌,
  if◌then◌else◌, update, add64, sub64,
}
use serendip6_reobs.Config.{Config, Source, n_bytes_per_subspectrum}
use serendip6_reobs.Databuf.{Rv, Hashpipe, InputBlock}
use serendip6_reobs.Databuf.Input.{s6_input_databuf_busywait_free}
use serendip6_reobs.Packets.{PacketHeader, Message, no_block, memcpy}
use serendip6_reobs.Pktsock.{
  Frame, PktState, nm, n_bytes_per_chan, max_out_of_seq, late_pkt_mcnt_threshold, set_block, say,
}
use serendip6_reobs.Pktsock.Header.{get_header}
use serendip6_reobs.Pktsock.Block.{
  block_for_mcnt, initialize_block_info, initialize_block, set_block_filled, calc_block_indexes,
}

module _ (c : Config) where
  -- The loop over the subspectra of one spectrum: `k` are left, from `sub` on; `src` is the offset of
  -- `src_p` in the frame.
  unfoldable pub copy_subspectra : (k sub mcnt src : ℕ) → (frame dest : ℕ → ℕ) → ℕ → ℕ
  copy_subspectra zero sub mcnt src frame dest = dest
  copy_subspectra (suc k) sub mcnt src frame dest =
      copy_subspectra k (sub + 1) mcnt (src + n_bytes_per_subspectrum c / 8 * 8) frame (
        memcpy dest
          ((sub * c.n_fine_chan + mcnt % c.n_fine_chan) * n_bytes_per_subspectrum c / 8 * 8) frame
          src (n_bytes_per_subspectrum c))

  -- The loop over the spectra of a packet: `k` are left, from `i` on.
  unfoldable pub copy_spectra : (k i pkt_mcnt src : ℕ) → (frame dest : ℕ → ℕ) → ℕ → ℕ
  copy_spectra zero i pkt_mcnt src frame dest = dest
  copy_spectra (suc k) i pkt_mcnt src frame dest =
      copy_spectra k (i + 1) pkt_mcnt
        (src + c.n_subspectra_per_spectrum * (n_bytes_per_subspectrum c / 8 * 8)) frame
        (copy_subspectra c.n_subspectra_per_spectrum 0
          ((pkt_mcnt * c.n_spectra_per_packet + i) % 2 ^ 64) src frame dest)

  -- The byte of the block's data at which the payload of a SOURCE_FAST packet starts. The offset is
  -- counted in words of 8 bytes.
  abbrev pub fast_offset : ℕ → ℕ
  fast_offset pkt_mcnt = pkt_mcnt % nm c * c.n_spectra_per_packet / 8 * 8

  -- Where the payload, which starts behind the header word, goes in the data of its block.
  unfoldable pub place : Source → PacketHeader → Frame → (ℕ → ℕ) → ℕ → ℕ
  place Source.source_s6 h f bytes =
      memcpy bytes ((h.sid * nm c + h.mcnt % nm c) * c.n_coarse_chan * n_bytes_per_chan c / 8 * 8)
        f.udp_data 8 (sub64 f.udp_size (8 + 8 + 8))
  place Source.source_dibas h f bytes =
      copy_spectra c.n_spectra_per_packet 0 h.mcnt 8 f.udp_data bytes
  place Source.source_fast h f bytes =
      memcpy bytes (fast_offset h.mcnt) f.udp_data 8 (sub64 f.udp_size (8 + 8))

  -- Which counter of the header a packet decrements.
  abbrev pub missed_index : Source → ℕ → ℕ
  missed_index Source.source_fast sid = 0
  missed_index Source.source_s6 sid = sid
  missed_index Source.source_dibas sid = sid

  -- What an accepted packet does to its block. A payload that is longer than its place can run on behind
  -- the data of the block, which Databuf.InputBlock does not take into the next block.
  unfoldable pub store_packet : PacketHeader → Frame → InputBlock → InputBlock
  store_packet h f b =
      let i = missed_index c.source h.sid in
      record b {
        header = record (b.header) {
          missed_pkts = update b.header.missed_pkts i (sub64 (b.header.missed_pkts i) 1);
        };
        bytes = place c.source h f b.bytes;
      }

  -- The mcnt that the packet's is advanced to, so that it falls in the block `block_i`.
  abbrev pub advanced_mcnt : (block_i pkt_block_i mcnt : ℕ) → ℕ
  advanced_mcnt block_i pkt_block_i mcnt =
      if ltb pkt_block_i block_i
      then add64 mcnt (nm c * (block_i - pkt_block_i))
      else if ltb block_i pkt_block_i
      then add64 mcnt (nm c * (block_i + c.n_input_blocks - pkt_block_i))
      else mcnt

  module _ {hp : Hashpipe} where
    -- The packet is for the second half of the next block: the current block is done. `now` is what
    -- clock_gettime(CLOCK_REALTIME) gives. Returns the mcnt of the block handed over.
    unfoldable pub finish_block :
        (now : ℕ × ℕ) → PacketHeader → PktState hp → Result (PktState hp × ℕ)
    finish_block now h s = do
      let b = s.db.block s.binfo.block_i
      let stamped = record b { header = record (b.header) { time_sec = now.0; time_nsec = now.1 } }
      (s1, netmcnt) ← set_block_filled c (record s { db = set_block s.db s.binfo.block_i stamped })
      let binfo = record (s1.binfo) {
        mcnt_start = add64 s1.binfo.mcnt_start (nm c);
        block_i = (s1.binfo.block_i + 1) % c.n_input_blocks;
        pchan = 0;
        nchan = 0;
      }
      let new_block_i = (binfo.block_i + 1) % c.n_input_blocks
      let (rv, db1) = s6_input_databuf_busywait_free s1.db new_block_i
      db2 ← elim rv [
        | Rv.hashpipe_ok ↦ initialize_block c (add64 h.mcnt (nm c)) h.pchan h.nchan h.sid db1
        | _ ↦ err Fault.thread_exit
      ]
      ok (
        record s1 {
          binfo = record binfo {
            block_packet_counter = update binfo.block_packet_counter new_block_i 0;
          };
          db = db2;
        },
        netmcnt,
      )

    -- The packet is for the current block or the next one, and goes to block `pkt_block_i`.
    unfoldable pub take_packet :
        (pkt_block_i netmcnt : ℕ) → PacketHeader → Frame → PktState hp → PktState hp × ℕ
    take_packet pkt_block_i netmcnt h f s =
        let counter = s.binfo.block_packet_counter in
        let s1 = record s {
          binfo = record (s.binfo) {
            out_of_seq_cnt = 0;
            block_packet_counter = update counter pkt_block_i (counter pkt_block_i + 1);
          };
        } in
        let (bad, s2) = calc_block_indexes c h s1 in
        if bad then (s2, no_block) else (
          record s2 {
            db = set_block s2.db pkt_block_i (store_packet h f (s2.db.block pkt_block_i));
          },
          netmcnt,
        )

    -- The packet is late, and is ignored.
    unfoldable pub late : PacketHeader → PktState hp → PktState hp
    late h s =
        if leb s.binfo.mcnt_log_late s.binfo.mcnt_start
        then say (Message.late_packet (sub64 s.binfo.mcnt_start h.mcnt)) s
        else s

    -- Too many packets in a row were out of sequence: start again near this one.
    unfoldable pub reset : (pkt_block_i : ℕ) → PacketHeader → PktState hp → Result (PktState hp)
    reset pkt_block_i h s = do
      let pkt_mcnt = advanced_mcnt s.binfo.block_i pkt_block_i h.mcnt
      let mcnt_start = pkt_mcnt - pkt_mcnt % nm c
      block_i ← block_for_mcnt c mcnt_start
      let s1 = say (Message.resetting mcnt_start block_i pkt_mcnt) s
      db1 ← initialize_block c mcnt_start h.pchan h.nchan h.sid s1.db
      db2 ← initialize_block c (add64 mcnt_start (nm c)) h.pchan h.nchan h.sid db1
      let counter = s1.binfo.block_packet_counter
      ok (record s1 {
        binfo = record (s1.binfo) {
          mcnt_start = mcnt_start;
          mcnt_log_late = add64 mcnt_start (nm c);
          block_i = block_i;
          pchan = 0;
          nchan = 0;
          block_packet_counter =
              update (update counter block_i 0) ((block_i + 1) % c.n_input_blocks) 0;
        };
        db = db2;
      })

    -- The packet is out of sequence.
    unfoldable pub out_of_seq :
        (pkt_block_i : ℕ) → PacketHeader → PktState hp → Result (PktState hp)
    out_of_seq pkt_block_i h s = do
      let cur_mcnt = s.binfo.mcnt_start
      let s1 = if cur_mcnt == 0 then s else say (Message.out_of_seq_mcnt h.mcnt cur_mcnt) s
      let count = s1.binfo.out_of_seq_cnt + 1
      let s2 = record s1 { binfo = record (s1.binfo) { out_of_seq_cnt = count } }
      if ltb (max_out_of_seq c) count then reset pkt_block_i h s2 else ok s2

    -- `dist` is the bit pattern of the int64_t pkt_mcnt_dist: it is negative from 2 ^ 63 on, and then
    -- stands for `dist` - 2 ^ 64.
    unfoldable pub dispatch :
        (now : ℕ × ℕ) (dist pkt_block_i : ℕ)
        → PacketHeader
        → Frame
        → PktState hp
        → Result (PktState hp × ℕ)
    dispatch now dist pkt_block_i h f s =
        if ltb dist (2 ^ 63) && ltb dist (2 * nm c)
        then (do
          (s1, netmcnt) ←
              (if leb (3 * (nm c / 2)) dist then finish_block now h s else ok (s, no_block))
          ok (take_packet pkt_block_i netmcnt h f s1))
        else if leb (2 ^ 63) dist && ltb (2 ^ 64 - dist) (late_pkt_mcnt_threshold c)
        then ok (late h s, no_block)
        else (do s1 ← out_of_seq pkt_block_i h s; ok (s1, no_block))

    unfoldable pub process_packet : (now : ℕ × ℕ) → Frame → PktState hp → Result (PktState hp × ℕ)
    process_packet now f s = do
      let s1 = record s { binfo = initialize_block_info c s.binfo }
      let h = get_header c f
      pkt_block_i ← block_for_mcnt c h.mcnt
      dispatch now (sub64 h.mcnt s1.binfo.mcnt_start) pkt_block_i h f s1
