-- ===== src/Net/Benchmark.antt =====
-- s6_memcpy_benchmark of src/s6_net_thread.cpp: it fills the blocks with copies of one packet before the
-- main loop starts. What clock_gettime measures is an argument, `ns`.
use serendip6_reobs.Base.{
  ℕ, zero, suc, ◌+◌, ◌-◌, ◌*◌, ◌/◌, ◌%◌, ◌≤◌, ◌<◌, ◌≡◌, ◌∙◌, ◌⊎◌, inl, inr, refl, ap, ltb,
  if◌then◌else◌, arith, for_each, for_each-ind, for_each-kept,
}
use native.Mathlib.Decide.{dec_lt}
use serendip6_reobs.Config.{Config}
use serendip6_reobs.Databuf.{Hashpipe, InputDatabuf, InputBlock}
use serendip6_reobs.Net.{UdpPacket, nm, n_bytes_per_chan, set_block}
use serendip6_reobs.Net.Copy.{s6_memcpy}

abbrev pub num_benchmarks : ℕ
num_benchmarks = 10

-- The shortest and the longest time of a packet of the block.
pub record BenchStats : Type 0 where
  pub pkt_count : ℕ
  pub min_packet_ns : ℕ
  pub max_packet_ns : ℕ

abbrev pub no_bench_stats : BenchStats
no_bench_stats = record { pkt_count = 0; min_packet_ns = 999999; max_packet_ns = 0 }

-- The statistics with one more packet: MIN, and then MAX, of the new minimum.
unfoldable pub bench_collect : (packet_ns : ℕ) → BenchStats → BenchStats
bench_collect packet_ns s =
    let least = if ltb s.min_packet_ns packet_ns then s.min_packet_ns else packet_ns in
    record {
      pkt_count = s.pkt_count + 1;
      min_packet_ns = least;
      max_packet_ns = if ltb packet_ns least then least else packet_ns;
    }

module _ (c : Config) where
  -- p->packet_size
  abbrev pub bench_packet_size : ℕ
  bench_packet_size = c.n_coarse_chan * 2 * 2 + 16

  -- The copy of one packet.
  unfoldable pub bench_packet : UdpPacket → (sid pkt_mcnt : ℕ) → InputBlock → InputBlock
  bench_packet p sid pkt_mcnt b = record b {
    bytes =
        s6_memcpy b.bytes
          ((sid * nm c + pkt_mcnt % nm c) * c.n_coarse_chan * n_bytes_per_chan / 8 * 8) p.bytes
          (8 + 8) (bench_packet_size - 8 - 8);
  }

  -- The copies into one block.
  unfoldable pub bench_block : UdpPacket → InputBlock → InputBlock
  bench_block p =
      for_each c.n_beams (λ sid. for_each c.n_fine_chan (λ pkt_mcnt. bench_packet p sid pkt_mcnt))

  -- The statistics that are printed for one block.
  unfoldable pub bench_stats : (ns : (sid pkt_mcnt : ℕ) → ℕ) → BenchStats
  bench_stats ns =
      for_each c.n_beams
        (λ sid. for_each c.n_fine_chan (λ pkt_mcnt. bench_collect (ns sid pkt_mcnt))) no_bench_stats

  -- The packet and the buffer afterwards.
  unfoldable pub s6_memcpy_benchmark :
      {hp : Hashpipe} → InputDatabuf hp → UdpPacket → InputDatabuf hp × UdpPacket
  s6_memcpy_benchmark db p =
      let q = record p { packet_size = bench_packet_size } in
      (
        for_each num_benchmarks
            (λ _. for_each c.n_input_blocks (λ pkt_block_i db1.
              set_block db1 pkt_block_i (bench_block q (db1.block pkt_block_i))))
            db,
        q,
      )

bench_collect_lem :
    (t : ℕ) (s : BenchStats)
    → ((bench_collect t s).max_packet_ns ≡ t)
      × ((bench_collect t s).min_packet_ns ≤ t)
      × ((bench_collect t s).min_packet_ns ≤ s.min_packet_ns)
unfolding bench_collect
bench_collect_lem t s = ground arith

-- The packets of one beam.
abbrev bench_row : (n : ℕ) (ns : ℕ → ℕ) → BenchStats → BenchStats
bench_row n ns = for_each n (λ k. bench_collect (ns k))

bench_row-falls :
    (n : ℕ) (ns : ℕ → ℕ) (s : BenchStats) → (bench_row n ns s).min_packet_ns ≤ s.min_packet_ns
bench_row-falls n ns s =
    for_each-kept n (λ k. bench_collect (ns k)) (λ b. b.min_packet_ns ≤ s.min_packet_ns) s
      (λ k lt b below. omega (arith, (bench_collect_lem (ns k) b).2)) (omega arith)

bench_row-least :
    (n : ℕ) (ns : ℕ → ℕ) (s : BenchStats) (k : ℕ) → k < n → (bench_row n ns s).min_packet_ns ≤ ns k
bench_row-least n ns s k =
    for_each-ind n (λ k. bench_collect (ns k)) (λ i b. k < i → b.min_packet_ns ≤ ns k) s
      (λ none. omega arith)
      (λ i lt b below in_row. elim (dec_lt k i) [
        | yes before ↦ omega (arith, below before, (bench_collect_lem (ns i) b).2)
        | no after ↦
            let last : i ≡ k = omega arith in
            omega (arith, ap ns last, (bench_collect_lem (ns i) b).1)
      ])

bench_row-last :
    (n : ℕ) (ns : ℕ → ℕ) (s : BenchStats) → 0 < n → (bench_row n ns s).max_packet_ns ≡ ns (n - 1)
bench_row-last zero ns s h = omega arith
bench_row-last (suc n) ns s h =
    (bench_collect_lem (ns n) (bench_row n ns s)).0 ∙ ap ns (omega arith)

bench_collect_min :
    (t : ℕ) (s : BenchStats)
    → ((bench_collect t s).min_packet_ns ≡ t)
      ⊎ ((bench_collect t s).min_packet_ns ≡ s.min_packet_ns)
unfolding bench_collect
bench_collect_min t s = ground arith

-- A number is what the statistics start with, or the time of one of the packets.
pub data IsTime (beams chans : ℕ) (ns : (sid pkt_mcnt : ℕ) → ℕ) (x : ℕ) : Type 0 where
  of_none : x ≡ 999999 → IsTime beams chans ns x
  of_packet :
      (sid pkt_mcnt : ℕ)
      → sid < beams
      → pkt_mcnt < chans
      → x ≡ ns sid pkt_mcnt
      → IsTime beams chans ns x

-- The longest time printed for a block is the time of its last packet, whatever the others took: MAX is
-- given the new minimum and not the old maximum. The shortest is right up to 999999: it is the least of the
-- times and of 999999 nanoseconds.
pub bench_stats_lem :
    (c : Config) (ns : (sid pkt_mcnt : ℕ) → ℕ)
    → 0 < c.n_beams
    → 0 < c.n_fine_chan
    → let s = bench_stats c ns in
      (s.max_packet_ns ≡ ns (c.n_beams - 1) (c.n_fine_chan - 1))
      × ((sid pkt_mcnt : ℕ)
          → sid < c.n_beams
          → pkt_mcnt < c.n_fine_chan
          → s.min_packet_ns ≤ ns sid pkt_mcnt)
      × (s.min_packet_ns ≤ 999999)
      × IsTime c.n_beams c.n_fine_chan ns s.min_packet_ns
unfolding bench_stats
bench_stats_lem c ns beams chans = (last c.n_beams beams, least, at_most, attained)
  where
    rows : (n : ℕ) → BenchStats
    rows n = for_each n (λ sid. bench_row c.n_fine_chan (ns sid)) no_bench_stats

    at_most : (rows c.n_beams).min_packet_ns ≤ 999999
    at_most =
        for_each-kept c.n_beams (λ sid. bench_row c.n_fine_chan (ns sid))
          (λ b. b.min_packet_ns ≤ 999999) no_bench_stats
          (λ sid lt b below. omega (arith, below, bench_row-falls c.n_fine_chan (ns sid) b))
          (omega arith)

    attained : IsTime c.n_beams c.n_fine_chan ns (rows c.n_beams).min_packet_ns
    attained =
        for_each-kept c.n_beams (λ sid. bench_row c.n_fine_chan (ns sid))
          (λ b. IsTime c.n_beams c.n_fine_chan ns b.min_packet_ns) no_bench_stats
          (λ sid beam b was.
            for_each-kept c.n_fine_chan (λ k. bench_collect (ns sid k))
              (λ b1. IsTime c.n_beams c.n_fine_chan ns b1.min_packet_ns) b
              (λ k chan b1 was1. elim (bench_collect_min (ns sid k) b1) [
                | inl this ↦ of_packet sid k beam chan this
                | inr old ↦ rw old was1
              ])
              was)
          (of_none refl)

    last : (n : ℕ) → 0 < n → (rows n).max_packet_ns ≡ ns (n - 1) (c.n_fine_chan - 1)
    last zero h = omega arith
    last (suc n) h =
        bench_row-last c.n_fine_chan (ns n) (rows n) chans
        ∙ ap (λ r. ns r (c.n_fine_chan - 1)) (omega arith)

    least :
        (sid pkt_mcnt : ℕ)
        → sid < c.n_beams
        → pkt_mcnt < c.n_fine_chan
        → (rows c.n_beams).min_packet_ns ≤ ns sid pkt_mcnt
    least sid k beam chan =
        for_each-ind c.n_beams (λ sid1. bench_row c.n_fine_chan (ns sid1))
          (λ i b. sid < i → b.min_packet_ns ≤ ns sid k) no_bench_stats (λ none. omega arith)
          (λ i lt b below in_rows. elim (dec_lt sid i) [
            | yes before ↦ omega (arith, below before, bench_row-falls c.n_fine_chan (ns i) b)
            | no after ↦
                let this : i ≡ sid = omega arith in
                omega (arith, ap (λ r. ns r k) this, bench_row-least c.n_fine_chan (ns i) b k chan)
          ])
          beam

pub packet_size-s6_memcpy_benchmark :
    (c : Config) {hp : Hashpipe} (db : InputDatabuf hp) (p : UdpPacket)
    → (s6_memcpy_benchmark c db p).1.packet_size ≡ bench_packet_size c
unfolding s6_memcpy_benchmark
packet_size-s6_memcpy_benchmark c db p = refl
