-- ===== src/Packets/Stats.antt =====
-- The timing statistics that the main loops of src/s6_pktsock_thread.cpp and src/s6_net_thread.cpp keep
-- alike: what the macros MIN and MAX do is written out.
use serendip6_reobs.Base.{ℕ, ltb, if◌then◌else◌, add64}

-- The nanoseconds of a round: waiting for the frame, receiving it, processing it.
pub record Times : Type 0 where
  pub wait_ns : ℕ
  pub recv_ns : ℕ
  pub proc_ns : ℕ

-- The statistics of the packets since the last finished block.
pub record Stats : Type 0 where
  pub packet_count : ℕ
  pub elapsed : Times
  pub least : Times
  pub most : Times

abbrev pub no_stats : Stats
no_stats = record {
  packet_count = 0;
  elapsed = record { wait_ns = 0; recv_ns = 0; proc_ns = 0 };
  least = record { wait_ns = 99999; recv_ns = 99999; proc_ns = 99999 };
  most = record { wait_ns = 0; recv_ns = 0; proc_ns = 0 };
}

abbrev min_of : ℕ → ℕ → ℕ
min_of a b = if ltb a b then a else b

abbrev max_of : ℕ → ℕ → ℕ
max_of a b = if ltb b a then a else b

-- The statistics with one more packet.
unfoldable pub collect : Times → Stats → Stats
collect t s = record {
  packet_count = add64 s.packet_count 1;
  elapsed = record {
    wait_ns = add64 s.elapsed.wait_ns t.wait_ns;
    recv_ns = add64 s.elapsed.recv_ns t.recv_ns;
    proc_ns = add64 s.elapsed.proc_ns t.proc_ns;
  };
  least = record {
    wait_ns = min_of t.wait_ns s.least.wait_ns;
    recv_ns = min_of t.recv_ns s.least.recv_ns;
    proc_ns = min_of t.proc_ns s.least.proc_ns;
  };
  most = record {
    wait_ns = max_of t.wait_ns s.most.wait_ns;
    recv_ns = max_of t.recv_ns s.most.recv_ns;
    proc_ns = max_of t.proc_ns s.most.proc_ns;
  };
}
