-- ===== src/Net/Process.antt =====
-- process_packet of src/s6_net_thread.cpp, one definition for each part of its body.
use serendip6_reobs.Base.{
  ℕ, ◌+◌, ◌-◌, ◌*◌, ◌/◌, ◌%◌, ◌^◌, Result, ok, err, Fault, ◌>>=◌, ltb, leb, ◌==◌, ◌&&◌,
  if◌then◌else◌, update, add64, sub64, u32,
}
use serendip6_reobs.Config.{Config}
use serendip6_reobs.Databuf.{Rv, Hashpipe, InputBlock}
use serendip6_reobs.Databuf.Input.{s6_input_databuf_busywait_free}
use serendip6_reobs.Packets.{PacketHeader, Message, no_block}
use serendip6_reobs.Net.{
  UdpPacket, NetState, nm, n_bytes_per_chan, max_out_of_seq, late_pkt_mcnt_threshold, set_block,
  say,
}
use serendip6_reobs.Net.Copy.{get_header, s6_memcpy}
use serendip6_reobs.Net.Block.{
  block_for_mcnt, initialize_block_info, initialize_block, set_block_filled, calc_block_indexes,
}

module _ (c : Config) where
  -- What an accepted packet does to its block. The length leaves out the header word and the CRC
  -- word. A payload that is longer than its place, or a length that wraps, can run on behind the data of the
  -- block, which Databuf.InputBlock does not take into the next block.
  unfoldable pub store_packet : PacketHeader → UdpPacket → InputBlock → InputBlock
  store_packet h p b = record b {
    header = record (b.header) {
      missed_pkts = update b.header.missed_pkts h.sid (sub64 (b.header.missed_pkts h.sid) 1);
    };
    bytes =
        s6_memcpy b.bytes
          ((h.sid * nm c + h.mcnt % nm c) * c.n_coarse_chan * n_bytes_per_chan / 8 * 8) p.bytes
          (8 + 8) (sub64 p.packet_size (8 + 8));
  }

  -- The mcnt that the packet's is advanced to, so that it falls in the block `block_i`.
  abbrev pub advanced_mcnt : (block_i pkt_block_i mcnt : ℕ) → ℕ
  advanced_mcnt block_i pkt_block_i mcnt =
      if ltb pkt_block_i block_i
      then add64 mcnt (nm c * (block_i - pkt_block_i))
      else if ltb block_i pkt_block_i
      then add64 mcnt (nm c * (block_i + c.n_input_blocks - pkt_block_i))
      else mcnt

  module _ {hp : Hashpipe} where
    -- The packet is for the second half of the next block: the current block is done. Returns the mcnt of the block handed over.
    unfoldable pub finish_block : PacketHeader → NetState hp → Result (NetState hp × ℕ)
    finish_block h s = do
      let missed = (s.db.block s.binfo.block_i).header.missed_pkts
      (s1, netmcnt) ← set_block_filled c (record s {
        total_missed_pkts = λ i. if ltb i c.n_beams then u32 (missed i) else s.total_missed_pkts i;
      })
      let binfo = record (s1.binfo) {
        mcnt_start = add64 s1.binfo.mcnt_start (nm c);
        block_i = (s1.binfo.block_i + 1) % c.n_input_blocks;
        pchan = 0;
        nchan = 0;
      }
      let new_block_i = (binfo.block_i + 1) % c.n_input_blocks
      let (rv, db1) = s6_input_databuf_busywait_free s1.db new_block_i
      db2 ← elim rv [
        | Rv.hashpipe_ok ↦ initialize_block c (add64 h.mcnt (nm c)) h.pchan h.nchan db1
        | _ ↦ err Fault.thread_exit
      ]
      ok (
        record s1 {
          binfo = record binfo {
            block_packet_counter = update binfo.block_packet_counter new_block_i 0;
          };
          db = db2;
        },
        netmcnt,
      )

    -- The packet is for the current block or the next one, and goes to block `pkt_block_i`.
    unfoldable pub take_packet :
        (pkt_block_i netmcnt : ℕ) → PacketHeader → UdpPacket → NetState hp → NetState hp × ℕ
    take_packet pkt_block_i netmcnt h p s =
        let counter = s.binfo.block_packet_counter in
        let s1 = record s {
          binfo = record (s.binfo) {
            out_of_seq_cnt = 0;
            block_packet_counter = update counter pkt_block_i (counter pkt_block_i + 1);
          };
        } in
        let (bad, s2) = calc_block_indexes c h s1 in
        if bad then (s2, no_block) else (
          record s2 {
            db = set_block s2.db pkt_block_i (store_packet h p (s2.db.block pkt_block_i));
          },
          netmcnt,
        )

    -- The packet is late, and is ignored.
    unfoldable pub late : PacketHeader → NetState hp → NetState hp
    late h s =
        if leb s.binfo.mcnt_log_late s.binfo.mcnt_start
        then say (Message.late_packet (sub64 s.binfo.mcnt_start h.mcnt)) s
        else s

    -- Too many packets in a row were out of sequence: start again near this one.
    unfoldable pub reset : (pkt_block_i : ℕ) → PacketHeader → NetState hp → Result (NetState hp)
    reset pkt_block_i h s = do
      let pkt_mcnt = advanced_mcnt s.binfo.block_i pkt_block_i h.mcnt
      let mcnt_start = pkt_mcnt - pkt_mcnt % nm c
      block_i ← block_for_mcnt c mcnt_start
      let s1 = say (Message.resetting mcnt_start block_i pkt_mcnt) s
      db1 ← initialize_block c mcnt_start h.pchan h.nchan s1.db
      db2 ← initialize_block c (add64 mcnt_start (nm c)) h.pchan h.nchan db1
      let counter = s1.binfo.block_packet_counter
      ok (record s1 {
        binfo = record (s1.binfo) {
          mcnt_start = mcnt_start;
          mcnt_log_late = add64 mcnt_start (nm c);
          block_i = block_i;
          pchan = 0;
          nchan = 0;
          block_packet_counter =
              update (update counter block_i 0) ((block_i + 1) % c.n_input_blocks) 0;
        };
        db = db2;
      })

    -- The packet is out of sequence.
    unfoldable pub out_of_seq :
        (pkt_block_i : ℕ) → PacketHeader → NetState hp → Result (NetState hp)
    out_of_seq pkt_block_i h s = do
      let cur_mcnt = s.binfo.mcnt_start
      let s1 = if cur_mcnt == 0 then s else say (Message.out_of_seq_mcnt h.mcnt cur_mcnt) s
      let count = s1.binfo.out_of_seq_cnt + 1
      let s2 = record s1 { binfo = record (s1.binfo) { out_of_seq_cnt = count } }
      if ltb (max_out_of_seq c) count then reset pkt_block_i h s2 else ok s2

    -- `dist` is the bit pattern of the int64_t pkt_mcnt_dist: it is negative from 2 ^ 63 on, and then
    -- stands for `dist` - 2 ^ 64.
    unfoldable pub dispatch :
        (dist pkt_block_i : ℕ) → PacketHeader → UdpPacket → NetState hp → Result (NetState hp × ℕ)
    dispatch dist pkt_block_i h p s =
        if ltb dist (2 ^ 63) && ltb dist (2 * nm c)
        then (do
          (s1, netmcnt) ← (if leb (3 * (nm c / 2)) dist then finish_block h s else ok (s, no_block))
          ok (take_packet pkt_block_i netmcnt h p s1))
        else if leb (2 ^ 63) dist && ltb (2 ^ 64 - dist) (late_pkt_mcnt_threshold c)
        then ok (late h s, no_block)
        else (do s1 ← out_of_seq pkt_block_i h s; ok (s1, no_block))

    unfoldable pub process_packet : UdpPacket → NetState hp → Result (NetState hp × ℕ)
    process_packet p s = do
      let s1 = record s { binfo = initialize_block_info c s.binfo }
      let h = get_header p
      pkt_block_i ← block_for_mcnt c h.mcnt
      dispatch (sub64 h.mcnt s1.binfo.mcnt_start) pkt_block_i h p s1
