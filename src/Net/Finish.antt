-- ===== src/Net/Finish.antt =====
-- What finish_block does: block number `seq` is handed over, and number `seq` + 2 is acquired.
use serendip6_reobs.Base.{
  ℕ, ◌+◌, ◌*◌, ◌%◌, ◌^◌, ◌≤◌, ◌<◌, ◌≡◌, ok, arith, u32, ltb, if◌then◌else◌, update,
}
use serendip6_reobs.Base.Arith.{mod-eq, succ-mod, succ-mod-ne}
use serendip6_reobs.Config.{Config}
use serendip6_reobs.Databuf.{Hashpipe}
use serendip6_reobs.Databuf.Input.{s6_input_databuf_set_filled, s6_input_databuf_busywait_free}
use serendip6_reobs.Packets.{PacketHeader}
use serendip6_reobs.Net.{NetState, nm, set_block}
use serendip6_reobs.Net.Process.{finish_block}
use serendip6_reobs.Net.Ring.{
  IsUsable, Inv, CallsSucceed, fresh_block, handed_over, set_block_filled_lem, initialize_block_lem,
}

module _ {c : Config} (u : IsUsable c) {hp : Hashpipe} where
  open u use {mcnts, blocks, small}

  -- The state when set_block_filled is called: the counters of the block are saved for the status.
  abbrev noted : (seq : ℕ) → NetState hp → NetState hp
  noted seq s =
      let missed = (s.db.block (seq % c.n_input_blocks)).header.missed_pkts in
      record s {
        total_missed_pkts = λ i. if ltb i c.n_beams then u32 (missed i) else s.total_missed_pkts i;
      }

  -- The state when finish_block returns.
  abbrev pub finished : (seq : ℕ) → PacketHeader → NetState hp → NetState hp
  finished seq h s =
      let s1 = handed_over u seq (noted seq s) in
      let new_block_i = (seq + 2) % c.n_input_blocks in
      let db1 = (s6_input_databuf_busywait_free s1.db new_block_i).1 in
      record s1 {
        binfo = record (s1.binfo) {
          mcnt_start = seq * nm c + nm c;
          block_i = (seq + 1) % c.n_input_blocks;
          pchan = 0;
          nchan = 0;
          block_packet_counter = update s1.binfo.block_packet_counter new_block_i 0;
        };
        db =
            set_block db1 new_block_i
              (fresh_block c (h.mcnt + nm c) h.pchan h.nchan (db1.block new_block_i));
      }

  noted-Inv : {s : NetState hp} {seq : ℕ} → Inv c s seq → Inv c (noted seq s) seq
  noted-Inv i = ground arith

  pub finish_block_lem :
      {s : NetState hp} {seq : ℕ} (h : PacketHeader)
      → Inv c s seq
      → CallsSucceed hp
      → h.mcnt < 2 ^ 56
      → seq * nm c + nm c ≤ h.mcnt
      → h.mcnt < seq * nm c + 2 * nm c
      → finish_block c h s ≡ ok (finished seq h s, seq * nm c)
  unfolding finish_block s6_input_databuf_busywait_free
  finish_block_lem {s} {seq} h i k small_mcnt lo hi = ground (
    arith,
    set_block_filled_lem u (noted-Inv i) k,
    succ-mod seq c.n_input_blocks,
    succ-mod (seq + 1) c.n_input_blocks,
    k.freed (handed_over u seq (noted seq s)).db.header ((seq + 2) % c.n_input_blocks),
    initialize_block_lem u (h.mcnt + nm c) (seq + 2) h.pchan h.nchan
        (s6_input_databuf_busywait_free (handed_over u seq (noted seq s)).db
          ((seq + 2) % c.n_input_blocks)).1,
  )

  pub finished-Inv :
      {s : NetState hp} {seq : ℕ} (h : PacketHeader)
      → Inv c s seq
      → h.mcnt < 2 ^ 56
      → seq * nm c + nm c ≤ h.mcnt
      → h.mcnt < seq * nm c + 2 * nm c
      → Inv c (finished seq h s) (seq + 1)
  unfolding s6_input_databuf_busywait_free s6_input_databuf_set_filled
  finished-Inv {s} {seq} h i small_mcnt lo hi = ground (
    arith,
    succ-mod seq c.n_input_blocks,
    succ-mod-ne (seq + 1) c.n_input_blocks,
    mod-eq (h.mcnt + nm c) (seq + 2) (nm c),
  )
