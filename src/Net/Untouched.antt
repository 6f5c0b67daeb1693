-- ===== src/Net/Untouched.antt =====
-- What s6_memcpy_benchmark of src/s6_net_thread.cpp leaves alone.
use serendip6_reobs.Base.{
  ℕ, ◌+◌, ◌-◌, ◌*◌, ◌/◌, ◌%◌, ◌≤◌, ◌<◌, ◌≡◌, ◌∙◌, refl, ap, arith, for_each-kept, inr,
}
use serendip6_reobs.Base.Arith.{mod_below, mul-le_right}
use serendip6_reobs.Config.{Config}
use serendip6_reobs.Databuf.{Hashpipe, InputDatabuf, InputBlock}
use serendip6_reobs.Packets.{memcpy_outside}
use serendip6_reobs.Net.{UdpPacket, nm, n_bytes_per_chan, set_block}
use serendip6_reobs.Net.Copy.{s6_memcpy-memcpy}
use serendip6_reobs.Net.Benchmark.{
  num_benchmarks, bench_packet_size, bench_packet, bench_block, s6_memcpy_benchmark,
}

-- What the benchmark leaves alone of a buffer: the semaphores, the headers of the blocks, and the bytes
-- behind the places of the packets.
pub record Untouched (c : Config) {hp : Hashpipe} (db db1 : InputDatabuf hp) : Type 0 where
  pub semaphores : db1.header ≡ db.header
  pub headers : (i : ℕ) → (db1.block i).header ≡ (db.block i).header
  pub behind :
      (i j : ℕ)
      → c.n_beams * nm c * c.n_coarse_chan * n_bytes_per_chan ≤ j
      → (db1.block i).bytes j ≡ (db.block i).bytes j

abbrev SameBehind : Config → InputBlock → InputBlock → Type 0
SameBehind c b b1 =
    (b1.header ≡ b.header)
    × ((j : ℕ) → c.n_beams * nm c * c.n_coarse_chan * n_bytes_per_chan ≤ j → b1.bytes j ≡ b.bytes j)

-- The places of the packets lie one behind the other.
pub slot-end : (sid r beams m w : ℕ) → sid < beams → r < m → (sid * m + r) * w + w ≤ beams * m * w
slot-end sid r beams m w beam chan = omega (
  arith,
  mul-le_right (sid * m + r + 1) (beams * m) w
      (omega (arith, mul-le_right (sid + 1) beams m (omega arith))),
)

bench_packet-behind :
    (c : Config) (p : UdpPacket) (sid pkt_mcnt : ℕ) (b : InputBlock)
    → sid < c.n_beams
    → 0 < nm c
    → SameBehind c b (bench_packet c p sid pkt_mcnt b)
unfolding bench_packet
bench_packet-behind c p sid k b beam chans = (
  refl,
  λ j far.
      s6_memcpy-memcpy b.bytes
        ((sid * nm c + k % nm c) * c.n_coarse_chan * n_bytes_per_chan / 8 * 8) p.bytes (8 + 8)
        (bench_packet_size c - 8 - 8) j
      ∙ memcpy_outside b.bytes _ p.bytes (8 + 8) _ j (
          inr (
            omega (
              arith,
              far,
              slot-end sid (k % nm c) c.n_beams (nm c) c.n_coarse_chan beam
                  (mod_below k (nm c) chans),
            ))),
)

bench_block-behind :
    (c : Config) (p : UdpPacket) (b : InputBlock) → 0 < nm c → SameBehind c b (bench_block c p b)
unfolding bench_block
bench_block-behind c p b chans =
    for_each-kept c.n_beams _ (SameBehind c b) b
      (λ sid beam b1 same1.
        for_each-kept c.n_fine_chan _ (SameBehind c b) b1
          (λ k lt b2 same2.
            let (header, bytes) = bench_packet-behind c p sid k b2 beam chans in
            (header ∙ same2.0, λ j far. bytes j far ∙ same2.1 j far))
          same1)
      (refl, λ j far. refl)

-- The benchmark writes only to the places of the packets in the data of the blocks: it changes no
-- semaphore, no header of a block and no byte behind these places.
pub s6_memcpy_benchmark-Untouched :
    (c : Config) {hp : Hashpipe} (db : InputDatabuf hp) (p : UdpPacket)
    → 0 < nm c
    → Untouched c db (s6_memcpy_benchmark c db p).0
unfolding s6_memcpy_benchmark
s6_memcpy_benchmark-Untouched c {hp} db p chans =
    for_each-kept num_benchmarks _ (Untouched c db) db
      (λ _ in_runs db1 same1.
        for_each-kept c.n_input_blocks _ (Untouched c db) db1
          (λ i lt db2 same2. written i db2 same2) same1)
      (record { semaphores = refl; headers = λ i. refl; behind = λ i j far. refl })
  where
    q : UdpPacket
    q = record p { packet_size = bench_packet_size c }

    written :
        (i : ℕ) (db2 : InputDatabuf hp)
        → Untouched c db db2
        → Untouched c db (set_block db2 i (bench_block c q (db2.block i)))
    written i db2 same =
        let (header, bytes) = bench_block-behind c q (db2.block i) chans in
        record {
          semaphores = same.semaphores;
          headers = λ k.
              ground
                (arith, header, same.headers k, ap (λ n. (db2.block n).header) {x = i} {y = k});
          behind = λ k j far. ground (
            arith,
            bytes j far,
            same.behind k j far,
            ap (λ n. (db2.block n).bytes j) {x = i} {y = k},
          );
        }
