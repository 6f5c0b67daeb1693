-- ===== src/Net/Ring.antt =====
-- The ring of blocks as src/s6_net_thread.cpp keeps it: two neighbouring blocks are being written,
-- the one of `mcnt_start` and the next. Blocks are numbered without end; number `seq` starts at mcnt
-- seq * Nm and lives in block seq % N_INPUT_BLOCKS of the buffer.
use serendip6_reobs.Base.{
  ℕ, ◌+◌, ◌-◌, ◌*◌, ◌/◌, ◌%◌, ◌^◌, ◌≤◌, ◌<◌, ◌≡◌, some, ok, arith, u32, sub32, ltb, if◌then◌else◌,
  ==_ne,
}
use serendip6_reobs.Base.Arith.{div-eq, mul-le_left}
use serendip6_reobs.Config.{Config}
use serendip6_reobs.Databuf.{Hashpipe, InputDatabuf, InputBlock}
use serendip6_reobs.Databuf.Input.{s6_input_databuf_set_filled}
pub use serendip6_reobs.Packets.{next_fill, misfilled, CallsSucceed}
use serendip6_reobs.Net.{NetState, nm, n_packets_per_block, set_block}
use serendip6_reobs.Net.Block.{block_for_mcnt, initialize_block, set_block_filled}

-- What the code needs of its constants.
pub record IsUsable (c : Config) : Type 0 where
  pub mcnts : 2 ≤ nm c
  pub blocks : 2 ≤ c.n_input_blocks
  pub small : nm c * c.n_input_blocks ≤ 2 ^ 40

-- No two mcnts of a run are further apart than this.
abbrev pub mcnt_limit : Config → ℕ
mcnt_limit c = 2 ^ 56 + nm c * c.n_input_blocks

-- The state while block number `seq` is the current one.
pub record Inv (c : Config) {hp : Hashpipe} (s : NetState hp) (seq : ℕ) : Type 0 where
  pub started : s.binfo.initialized ≡ 1
  pub start : s.binfo.mcnt_start ≡ seq * nm c
  pub current : s.binfo.block_i ≡ seq % c.n_input_blocks
  pub bound : seq * nm c ≤ mcnt_limit c
  pub order : next_fill c s.last_filled ≡ seq % c.n_input_blocks
  pub quiet : misfilled s.messages ≡ 0
  pub cur_header : (s.db.block (seq % c.n_input_blocks)).header.mcnt ≡ seq * nm c
  pub next_header : (s.db.block ((seq + 1) % c.n_input_blocks)).header.mcnt ≡ seq * nm c + nm c

-- A block just started.
abbrev pub fresh_block : Config → (mcnt pchan nchan : ℕ) → InputBlock → InputBlock
fresh_block c mcnt pchan nchan b = record b {
  header = record (b.header) {
    missed_pkts = λ i.
        if ltb i c.n_beam_slots
        then if ltb i c.n_beams then nm c else 0
        else b.header.missed_pkts i;
    mcnt = mcnt - mcnt % nm c;
    coarse_chan_id = pchan;
    num_coarse_chan = nchan;
  };
}

module _ {c : Config} (u : IsUsable c) where
  open u use {mcnts, blocks, small}

  pub nm_small : nm c ≤ 2 ^ 40
  nm_small = omega (arith, mul-le_left (nm c) 1 c.n_input_blocks (omega arith))

  pub block_for_mcnt_lem : (m : ℕ) → block_for_mcnt c m ≡ ok (m / nm c % c.n_input_blocks)
  unfolding block_for_mcnt
  block_for_mcnt_lem m = rw (==_ne (nm c) 0 (omega arith))

  pub block_for_mcnt-seq :
      (m seq : ℕ)
      → seq * nm c ≤ m
      → m < seq * nm c + nm c
      → block_for_mcnt c m ≡ ok (seq % c.n_input_blocks)
  block_for_mcnt-seq m seq lo hi = rw (block_for_mcnt_lem m, div-eq m seq (nm c) lo hi)

  module _ {hp : Hashpipe} where
    pub initialize_block_lem :
        (m seq pchan nchan : ℕ) (db : InputDatabuf hp)
        → seq * nm c ≤ m
        → m < seq * nm c + nm c
        → initialize_block c m pchan nchan db
          ≡ ok (
              set_block db
                (seq % c.n_input_blocks)
                (fresh_block c m pchan nchan (db.block (seq % c.n_input_blocks))))
    unfolding initialize_block
    initialize_block_lem m seq pchan nchan db lo hi = rw (block_for_mcnt-seq m seq lo hi)

    -- The running total of missed packets then.
    abbrev pub missed_total : (seq : ℕ) → NetState hp → ℕ
    missed_total seq s = u32 (
        s.missed_pkt_cnt
        + sub32 (n_packets_per_block c) (s.binfo.block_packet_counter (seq % c.n_input_blocks)))

    -- The state after the current block is handed over.
    abbrev pub handed_over : (seq : ℕ) → NetState hp → NetState hp
    handed_over seq s = record s {
      last_filled = some (seq % c.n_input_blocks);
      db = (s6_input_databuf_set_filled s.db (seq % c.n_input_blocks)).1;
      missed_pkt_cnt = missed_total seq s;
      status = record (s.status) {
        netbkout = some (seq % c.n_input_blocks);
        misspktl = some (missed_total seq s);
        schan = some (u32 s.binfo.pchan);
        nchan = some (u32 s.binfo.nchan);
      };
    }

    -- In order, with no message.
    pub set_block_filled_lem :
        {s : NetState hp} {seq : ℕ}
        → Inv c s seq
        → CallsSucceed hp
        → set_block_filled c s ≡ ok (handed_over seq s, seq * nm c)
    unfolding set_block_filled s6_input_databuf_set_filled
    set_block_filled_lem {s} {seq} i k = ground (
      arith,
      block_for_mcnt-seq s.binfo.mcnt_start seq,
      k.filled s.db.header (seq % c.n_input_blocks),
    )
