-- ===== src/Pktsock/Finish.antt =====
-- What finish_block does: block number `seq` is handed over, and number `seq` + 2 is acquired.
use serendip6_reobs.Base.{ℕ, ◌+◌, ◌*◌, ◌%◌, ◌^◌, ◌≤◌, ◌<◌, ◌≡◌, ok, arith, update}
use serendip6_reobs.Base.Arith.{mod-eq, succ-mod, succ-mod-ne}
use serendip6_reobs.Config.{Config}
use serendip6_reobs.Databuf.{Hashpipe, InputBlock}
use serendip6_reobs.Databuf.Input.{s6_input_databuf_set_filled, s6_input_databuf_busywait_free}
use serendip6_reobs.Packets.{PacketHeader}
use serendip6_reobs.Pktsock.{PktState, nm, set_block}
use serendip6_reobs.Pktsock.Process.{finish_block}
use serendip6_reobs.Pktsock.Ring.{
  IsUsable, Inv, CallsSucceed, fresh_block, handed_over, set_block_filled_lem, initialize_block_lem,
}

abbrev pub stamp : ℕ × ℕ → InputBlock → InputBlock
stamp now b = record b { header = record (b.header) { time_sec = now.0; time_nsec = now.1 } }

module _ {c : Config} (u : IsUsable c) {hp : Hashpipe} where
  open u use {mcnts, blocks, small}

  -- The state when set_block_filled is called.
  abbrev stamped : (seq : ℕ) (now : ℕ × ℕ) → PktState hp → PktState hp
  stamped seq now s = record s {
    db = set_block s.db (seq % c.n_input_blocks) (stamp now (s.db.block (seq % c.n_input_blocks)));
  }

  -- The state when finish_block returns.
  abbrev pub finished : (seq : ℕ) (now : ℕ × ℕ) → PacketHeader → PktState hp → PktState hp
  finished seq now h s =
      let s1 = handed_over u seq (stamped seq now s) in
      let new_block_i = (seq + 2) % c.n_input_blocks in
      let db1 = (s6_input_databuf_busywait_free s1.db new_block_i).1 in
      record s1 {
        binfo = record (s1.binfo) {
          mcnt_start = seq * nm c + nm c;
          block_i = (seq + 1) % c.n_input_blocks;
          pchan = 0;
          nchan = 0;
          block_packet_counter = update s1.binfo.block_packet_counter new_block_i 0;
        };
        db =
            set_block db1 new_block_i
              (fresh_block c (h.mcnt + nm c) h.pchan h.nchan h.sid (db1.block new_block_i));
      }

  stamped-Inv :
      {s : PktState hp} {seq : ℕ} (now : ℕ × ℕ) → Inv c s seq → Inv c (stamped seq now s) seq
  stamped-Inv now i = ground arith

  pub finish_block_lem :
      {s : PktState hp} {seq : ℕ} (now : ℕ × ℕ) (h : PacketHeader)
      → Inv c s seq
      → CallsSucceed hp
      → h.mcnt < 2 ^ 56
      → seq * nm c + nm c ≤ h.mcnt
      → h.mcnt < seq * nm c + 2 * nm c
      → finish_block c now h s ≡ ok (finished seq now h s, seq * nm c)
  unfolding finish_block s6_input_databuf_busywait_free
  finish_block_lem {s} {seq} now h i k small_mcnt lo hi = ground (
    arith,
    set_block_filled_lem u (stamped-Inv now i) k,
    succ-mod seq c.n_input_blocks,
    succ-mod (seq + 1) c.n_input_blocks,
    k.freed (handed_over u seq (stamped seq now s)).db.header ((seq + 2) % c.n_input_blocks),
    initialize_block_lem u (h.mcnt + nm c) (seq + 2) h.pchan h.nchan h.sid
        (s6_input_databuf_busywait_free (handed_over u seq (stamped seq now s)).db
          ((seq + 2) % c.n_input_blocks)).1,
  )

  pub finished-Inv :
      {s : PktState hp} {seq : ℕ} (now : ℕ × ℕ) (h : PacketHeader)
      → Inv c s seq
      → h.mcnt < 2 ^ 56
      → seq * nm c + nm c ≤ h.mcnt
      → h.mcnt < seq * nm c + 2 * nm c
      → Inv c (finished seq now h s) (seq + 1)
  unfolding s6_input_databuf_busywait_free s6_input_databuf_set_filled
  finished-Inv {s} {seq} now h i small_mcnt lo hi = ground (
    arith,
    succ-mod seq c.n_input_blocks,
    succ-mod-ne (seq + 1) c.n_input_blocks,
    mod-eq (h.mcnt + nm c) (seq + 2) (nm c),
  )
