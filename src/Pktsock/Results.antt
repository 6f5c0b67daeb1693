-- ===== src/Pktsock/Results.antt =====
-- What process_packet returns for an expected packet, and what a bad source ID hides.
use serendip6_reobs.Base.{
  ℕ, ◌+◌, ◌-◌, ◌*◌, ◌/◌, ◌%◌, ◌≤◌, ◌<◌, ◌≡◌, some, ok, arith, leb, if◌then◌else◌,
}
use serendip6_reobs.Config.{Config}
use serendip6_reobs.Databuf.{Hashpipe}
use serendip6_reobs.Packets.{PacketHeader, no_block}
use serendip6_reobs.Pktsock.{Frame, PktState, nm}
use serendip6_reobs.Pktsock.Header.{get_header}
use serendip6_reobs.Pktsock.Process.{process_packet}
use serendip6_reobs.Pktsock.Ring.{IsUsable, Inv, CallsSucceed, block_for_mcnt_lem}
use serendip6_reobs.Pktsock.Finish.{finished}
use serendip6_reobs.Pktsock.Invariant.{dispatch-expected}
use serendip6_reobs.Pktsock.Invariant.{netmcnt-take_packet, last_filled-take_packet}
use serendip6_reobs.Pktsock.Trace.{IsFrame, mcnt-get_header, prepared}

module _ {c : Config} (u : IsUsable c) {hp : Hashpipe} (k : CallsSucceed hp) where
  open u use {mcnts, blocks, small}

  -- In a usable build, while the hashpipe calls succeed, from a state that keeps the ring with block
  -- number `seq` current: what process_packet returns on a frame of bytes whose mcnt is in that block
  -- or the next, with a source ID in range, is the mcnt of block `seq` if the packet lies in the second
  -- half of the next block, and -1 otherwise.
  pub netmcnt-process_packet :
      (s : PktState hp) {t : PktState hp} {seq r : ℕ} (now : ℕ × ℕ) (f : Frame)
      → IsFrame f
      → Inv c (prepared c s) seq
      → process_packet c now f s ≡ ok (t, r)
      → seq * nm c ≤ (get_header c f).mcnt
      → (get_header c f).mcnt < seq * nm c + 2 * nm c
      → (get_header c f).sid < c.n_source_nodes
      → r ≡ (
          if leb (3 * (nm c / 2)) ((get_header c f).mcnt - seq * nm c)
          then seq * nm c
          else no_block)
  unfolding process_packet
  netmcnt-process_packet s {t} {seq} {r} now f b i e lo hi good = ground (
    arith,
    block_for_mcnt_lem u h.mcnt,
    dispatch-expected u {s = prepared c s} {seq = seq} now h f b_i i k (mcnt-get_header c f b) lo
        hi,
    netmcnt-take_packet c b_i (seq * nm c) h f (finished u seq now h (prepared c s)),
    netmcnt-take_packet c b_i no_block h f (prepared c s),
  )
    where
      h : PacketHeader
      h = get_header c f

      b_i : ℕ
      b_i = h.mcnt / nm c % c.n_input_blocks

  -- In a usable build, while the hashpipe calls succeed, from a state that keeps the ring with block
  -- number `seq` current: if a frame of bytes in the second half of the next block has a source ID out
  -- of range, block `seq` is handed over, and the result is -1 all the same.
  pub bad_sid_hides_block :
      (s : PktState hp) {t : PktState hp} {seq r : ℕ} (now : ℕ × ℕ) (f : Frame)
      → IsFrame f
      → Inv c (prepared c s) seq
      → process_packet c now f s ≡ ok (t, r)
      → seq * nm c + 3 * (nm c / 2) ≤ (get_header c f).mcnt
      → (get_header c f).mcnt < seq * nm c + 2 * nm c
      → c.n_source_nodes ≤ (get_header c f).sid
      → (r ≡ no_block) × (t.last_filled ≡ some (seq % c.n_input_blocks))
  unfolding process_packet
  bad_sid_hides_block s {t} {seq} {r} now f b i e lo hi bad = ground (
    arith,
    block_for_mcnt_lem u h.mcnt,
    dispatch-expected u {s = prepared c s} {seq = seq} now h f b_i i k (mcnt-get_header c f b),
    netmcnt-take_packet c b_i (seq * nm c) h f (finished u seq now h (prepared c s)),
    last_filled-take_packet c b_i (seq * nm c) h f (finished u seq now h (prepared c s)),
  )
    where
      h : PacketHeader
      h = get_header c f

      b_i : ℕ
      b_i = h.mcnt / nm c % c.n_input_blocks
