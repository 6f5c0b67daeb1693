-- ===== src/Pktsock/Block.antt =====
-- The functions of src/s6_pktsock_thread.cpp on one block: which block an mcnt belongs to, how a
-- block is started, and how it is handed to the next thread.
use serendip6_reobs.Base.{
  ℕ, ◌+◌, ◌-◌, ◌/◌, ◌%◌, Bool, true, false, none, some, Result, ok, err, Fault, ◌>>=◌, ltb, leb,
  ◌==◌, if◌then◌else◌, u32, sub32,
}
use serendip6_reobs.Config.{Config}
use serendip6_reobs.Databuf.{Rv, Hashpipe, InputDatabuf}
use serendip6_reobs.Databuf.Input.{s6_input_databuf_set_filled}
use serendip6_reobs.Packets.{PacketHeader, BlockInfo, Message}
use serendip6_reobs.Pktsock.{Status, PktState, nm, n_packets_per_block, set_block, say}

module _ (c : Config) where
  -- The division traps if there are no mcnts in a block.
  unfoldable pub block_for_mcnt : ℕ → Result ℕ
  block_for_mcnt mcnt =
      if nm c == 0 then err Fault.div_by_zero else ok (mcnt / nm c % c.n_input_blocks)

  -- A zero `initialized` is the first call; every later call does nothing.
  unfoldable pub initialize_block_info : BlockInfo → BlockInfo
  initialize_block_info b =
      if b.initialized == 0
      then record b {
        block_packet_counter = λ i. if ltb i c.n_input_blocks then 0 else b.block_packet_counter i;
        pchan = 0;
        nchan = 0;
        mcnt_start = 0;
        mcnt_log_late = nm c;
        block_i = 0;
        out_of_seq_cnt = 0;
        initialized = 1;
      }
      else b

  -- The status buffer after a block is handed over: `missed` packets of it were never counted.
  unfoldable pub count_missed : (block_i missed : ℕ) → BlockInfo → Status → Status
  count_missed block_i missed b st =
      let missed_mod = missed % nm c in
      let before : ℕ = elim st.missedpk [ none ↦ 0 | some n ↦ n ] in
      record st {
        netbkout = some block_i;
        missedbm = some (missed / nm c);
        missedpk = if missed_mod == 0 then st.missedpk else some (u32 (before + missed_mod));
        schan = some (u32 b.pchan);
        nchan = some (u32 b.nchan);
      }

  module _ {hp : Hashpipe} where
    unfoldable pub initialize_block :
        (mcnt pchan nchan sid : ℕ) → InputDatabuf hp → Result (InputDatabuf hp)
    initialize_block mcnt pchan nchan sid db = do
      block_i ← block_for_mcnt mcnt
      let b = db.block block_i
      ok (
          set_block db block_i (record b {
            header = record (b.header) {
              missed_pkts = λ i. if ltb i c.n_bors then nm c else b.header.missed_pkts i;
              mcnt = mcnt - mcnt % nm c;
              coarse_chan_id = pchan;
              num_coarse_chan = nchan;
              sid = sid;
            };
          }))

    -- Marks the block of `mcnt_start` as filled and returns that mcnt.
    unfoldable pub set_block_filled : PktState hp → Result (PktState hp × ℕ)
    set_block_filled s = do
      block_i ← block_for_mcnt s.binfo.mcnt_start
      let last : ℕ = elim s.last_filled [ none ↦ 0 | some k ↦ (k + 1) % c.n_input_blocks ]
      let s1 = record s { last_filled = some last }
      let s2 = if last == block_i then s1 else say (Message.fill_order block_i last) s1
      let s3 =
          if block_i == s2.binfo.block_i
          then s2
          else say (Message.block_mismatch block_i s2.binfo.block_i) s2
      let (rv, db) = s6_input_databuf_set_filled s3.db block_i
      elim rv [
        | Rv.hashpipe_ok ↦
            let missed = sub32 (n_packets_per_block c) (s3.binfo.block_packet_counter block_i) in
            ok (
              record s3 { db = db; status = count_missed block_i missed s3.binfo s3.status },
              s3.binfo.mcnt_start,
            )
        | _ ↦ err Fault.thread_exit
      ]

    -- Whether the packet is to be rejected, with the state that its checks leave.
    unfoldable pub calc_block_indexes : PacketHeader → PktState hp → Bool × PktState hp
    calc_block_indexes h s =
        if leb c.n_source_nodes h.sid
        then (true, say (Message.bad_sid h.sid) s)
        else let b =
            if s.binfo.nchan == 0
            then record (s.binfo) { nchan = h.nchan; pchan = h.pchan }
            else s.binfo in
          let s1 = record s { binfo = b } in
          let s2 =
            if h.pchan == b.pchan then s1 else say (Message.unexpected_pchan h.pchan b.pchan) s1 in
          let s3 =
            if h.nchan == b.nchan then s2 else say (Message.unexpected_nchan h.nchan b.nchan) s2 in
          (false, s3)
