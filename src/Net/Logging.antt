-- ===== src/Net/Logging.antt =====
-- The in-memory log of src/s6_net_thread.cpp, one line for each vector of packets.
use serendip6_reobs.Base.{
  ℕ, ◌+◌, ◌<◌, ◌≡◌, ◌≢◌, ◌⊎◌, inl, inr, refl, ok, arith, List, [], ◌++◌, ◌==◌, length, ◌≤◌,
  if◌then◌else◌, true, false, Bool-cases, ==_ne, ==_self,
}
use serendip6_reobs.Databuf.{Hashpipe}
use serendip6_reobs.Logger.{log_limit, log_line, logger, logger_keeps}
use serendip6_reobs.Net.Run.{Sprintf, Loop, Received, recv_cnt_of, log_numbers, log_vector}

module _ (sprintf : Sprintf) {hp : Hashpipe} (r : Received) (l : Loop hp) where
  -- The line for the vector. The time of the first line of a log is 0.
  abbrev pub line_of : List ℕ
  line_of = log_line sprintf.line_number (l.log.num_lines + 1) (
      sprintf.log_message
        (log_numbers r (if l.first_log_line == 0 then r.runtime_ns else 0) l.head))

  -- The line has reached the limit of lines, or the text that of the array: the log has been written out,
  -- and logging stops.
  pub record Stopped (l1 : Loop hp) : Type 0 where
    pub limit :
        (l.net_log_lines ≤ l.log.num_lines + 1) ⊎ (log_limit ≤ length (l.log.text ++ line_of))
    pub off : l1.net_log_lines ≡ 0
    pub told : l1.report.netlogln ≡ 0
    pub anew : l1.first_log_line ≡ 1
    pub empty : l1.log.text ≡ []
    pub from_zero : l1.log.num_lines ≡ 0

  -- The line has been kept below both limits, nothing has been written out, and logging goes on.
  pub record Continued (l1 : Loop hp) : Type 0 where
    pub on : l1.net_log_lines ≡ l.net_log_lines
    pub told : l1.report.netlogln ≡ l.report.netlogln
    pub later : l1.first_log_line ≡ 0
    pub counted : l1.log.num_lines ≡ l.log.num_lines + 1
    pub below : l1.log.num_lines < l1.net_log_lines
    pub room : length l1.log.text < log_limit
    pub kept : l1.log.written ≡ l.log.written

  -- Of a vector that is not empty, while logging is on: the line is added once behind what has been
  -- logged, nothing of the packets' state is touched, and either a limit, of
  -- lines or of the array, is met, the log has just been written out, and logging is off, here and in the
  -- status buffer; or neither is, nothing is written out, and logging goes on.
  pub log_vector_lem :
      recv_cnt_of r ≢ 0
      → l.net_log_lines ≢ 0
      → (l1 : Loop hp) × (log_vector sprintf r l ≡ ok l1)
        × (l1.pkt ≡ l.pkt)
        × (l1.packet_size ≡ l.packet_size)
        × (l1.log.written ++ l1.log.text ≡ (l.log.written ++ l.log.text) ++ line_of)
        × (Stopped l1 ⊎ Continued l1)
  unfolding log_vector
  log_vector_lem got on =
      let runtime_ns = if l.first_log_line == 0 then r.runtime_ns else 0 in
      let message = sprintf.log_message (log_numbers r runtime_ns l.head) in
      let (kept, what) = logger_keeps sprintf.line_number message l.net_log_lines l.log in
      let returned = (logger sprintf.line_number message l.net_log_lines l.log).1 in
      rw (==_ne l.net_log_lines 0 on, ==_ne (recv_cnt_of r) 0 got)
        (elim what [
          | inl (full, empty, zero_lines, limit) ↦
              let stop : (returned == l.net_log_lines) ≡ true = rw full (==_self l.net_log_lines) in
              rw stop (
                _,
                refl,
                refl,
                refl,
                kept,
                inl (record {
                  limit = limit;
                  off = refl;
                  told = refl;
                  anew = refl;
                  empty = empty;
                  from_zero = zero_lines;
                }),
              )
          | inr (count, counted, below, room, unwritten) ↦
              let go_on : (returned == l.net_log_lines) ≡ false =
                ==_ne returned l.net_log_lines (λ e. omega (arith, count, below, e)) in
              rw go_on (
                _,
                refl,
                refl,
                refl,
                kept,
                inr (record {
                  on = refl;
                  told = refl;
                  later = refl;
                  counted = counted;
                  below = below;
                  room = room;
                  kept = unwritten;
                }),
              )
        ])

  -- Whether logging is on or not, the packets' state is not touched.
  pub log_vector-pkt :
      recv_cnt_of r ≢ 0
      → (l1 : Loop hp) × (log_vector sprintf r l ≡ ok l1)
        × (l1.pkt ≡ l.pkt)
        × (l1.packet_size ≡ l.packet_size)
  unfolding log_vector
  log_vector-pkt got = elim (Bool-cases (l.net_log_lines == 0)) [
    | inl off ↦ rw off (l, refl, refl, refl)
    | inr on ↦
        let (l1, e, same, size, _, _) = log_vector_lem got (λ z. ground (arith, z, on)) in
        (l1, e, same, size)
  ]
