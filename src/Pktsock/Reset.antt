-- ===== src/Pktsock/Reset.antt =====
-- What reset does: it starts the ring again near a packet, in the block of the buffer that is current,
-- so that the blocks go on being filled in order.
use serendip6_reobs.Base.{
  ℕ, ◌+◌, ◌-◌, ◌*◌, ◌%◌, ◌^◌, ◌≤◌, ◌<◌, ◌≡◌, refl, ok, arith, update, add64, ◌∷◌,
}
use serendip6_reobs.Base.Arith.{
  mod-eq, succ-mod, succ-mod-ne, mod_below, mul-le_left, mul-add_right,
}
use serendip6_reobs.Config.{Config}
use serendip6_reobs.Window.{advanced_seq}
use serendip6_reobs.Databuf.{Hashpipe}
use serendip6_reobs.Packets.{PacketHeader, Message}
use serendip6_reobs.Pktsock.{PktState, nm, set_block}
use serendip6_reobs.Pktsock.Process.{reset, advanced_mcnt}
use serendip6_reobs.Pktsock.Ring.{
  IsUsable, Inv, next_fill, misfilled, fresh_block, mcnt_limit, initialize_block_lem,
  block_for_mcnt-seq, nm_small,
}

module _ {c : Config} (u : IsUsable c) where
  open u use {mcnts, blocks, small}

  -- The advanced mcnt lies in that block, as far into it as the packet's mcnt in its own.
  pub advanced_mcnt_lem :
      (b p m : ℕ)
      → b < c.n_input_blocks
      → m < 2 ^ 56
      → p * nm c ≤ m
      → m < p * nm c + nm c
      → let q = advanced_seq c.n_input_blocks b p in
        advanced_mcnt c b (p % c.n_input_blocks) m ≡ q * nm c + (m - p * nm c)
  advanced_mcnt_lem b p m hb small_mcnt lo hi = ground (
    arith,
    mul-le_left (nm c) (b - p % n) n,
    mul-le_left (nm c) (b + n - p % n) n,
    mul-add_right p (b - p % n) (nm c),
    mul-add_right p (b + n - p % n) (nm c),
    mod_below p n,
  )
    where
      open c use {n_input_blocks as n}

  module _ {hp : Hashpipe} where
    -- The state when reset returns, `q` the number of the block that it starts again with.
    abbrev pub restarted : (q pkt_mcnt : ℕ) → PacketHeader → PktState hp → PktState hp
    restarted q pkt_mcnt h s =
        let n = c.n_input_blocks in
        let db1 =
          set_block s.db (q % n)
            (fresh_block c (q * nm c) h.pchan h.nchan h.sid (s.db.block (q % n))) in
        record s {
          messages = Message.resetting (q * nm c) (q % n) pkt_mcnt ∷ s.messages;
          binfo = record (s.binfo) {
            mcnt_start = q * nm c;
            mcnt_log_late = q * nm c + nm c;
            block_i = q % n;
            pchan = 0;
            nchan = 0;
            block_packet_counter =
                update (update s.binfo.block_packet_counter (q % n) 0) ((q + 1) % n) 0;
          };
          db =
              set_block db1 ((q + 1) % n)
                (fresh_block c (q * nm c + nm c) h.pchan h.nchan h.sid (db1.block ((q + 1) % n)));
        }

    pub reset-restarted :
        (s : PktState hp) (h : PacketHeader) (pkt_block_i q r : ℕ)
        → advanced_mcnt c s.binfo.block_i pkt_block_i h.mcnt ≡ q * nm c + r
        → r < nm c
        → q * nm c ≤ mcnt_limit c
        → reset c pkt_block_i h s ≡ ok (restarted q (q * nm c + r) h s)
    unfolding reset
    reset-restarted s h pkt_block_i q r adv hr lim =
        rw
          (
            adv,
            rounded,
            block_for_mcnt-seq u (q * nm c) q (omega arith) (omega arith),
            initialize_block_lem u (q * nm c) q h.pchan h.nchan h.sid s.db (omega arith)
                (omega arith),
            next_start,
            initialize_block_lem u (q * nm c + nm c) (q + 1) h.pchan h.nchan h.sid _ (omega arith)
                (omega arith),
            succ-mod q c.n_input_blocks,
          )
          refl
      where
        rounded : q * nm c + r - (q * nm c + r) % nm c ≡ q * nm c
        rounded = omega (arith, mod-eq (q * nm c + r) q (nm c) (omega arith) (omega arith))

        next_start : add64 (q * nm c) (nm c) ≡ q * nm c + nm c
        next_start = omega (arith, nm_small u)

    pub restarted-Inv :
        (s : PktState hp) (h : PacketHeader) (q r : ℕ)
        → s.binfo.initialized ≡ 1
        → next_fill c s.last_filled ≡ q % c.n_input_blocks
        → q * nm c ≤ mcnt_limit c
        → misfilled s.messages ≡ 0
        → Inv c (restarted q (q * nm c + r) h s) q
    restarted-Inv s h q r i o lim z = ground (
      arith,
      mod-eq (q * nm c) q (nm c),
      mod-eq (q * nm c + nm c) (q + 1) (nm c),
      succ-mod-ne q c.n_input_blocks,
    )
