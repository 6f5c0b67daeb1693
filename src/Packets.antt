-- ===== src/Packets.antt =====
-- What the two packet threads, src/s6_pktsock_thread.cpp and src/s6_net_thread.cpp, have in common:
-- the header of a packet, the state kept between packets, and the messages that they print.
pub mod Stats
pub mod Semaphores
pub mod Ledger
use serendip6_reobs.Config.{Config}
use serendip6_reobs.Databuf.{Rv, Hashpipe}
use serendip6_reobs.Base.{
  ℕ, zero, suc, ◌+◌, ◌-◌, ◌*◌, ◌/◌, ◌%◌, ◌^◌, ◌≤◌, ◌<◌, ◌≡◌, ◌≢◌, ◌⊎◌, inl, inr, refl, sym, ap, ◌∙◌,
  Option, none, some, Result, ok, err, Fault, ◌>>=◌, >>=-eq-ok, ok-injective, arith, sub64, add64,
  mul64, u32, sub32, List, [], ◌∷◌, ◌++◌, ltb, leb, ◌==◌, ◌&&◌, ◌||◌, not, if◌then◌else◌, Bool,
  true, false, Bool-cases, update, update_self, update_ne, lt→ltb, le→ltb, le→leb, lt→leb, ==_self,
  ==_ne,
}

-- packet_header_t
pub record PacketHeader : Type 0 where
  pub mcnt : ℕ
  pub pchan : ℕ
  pub nchan : ℕ
  pub sid : ℕ

-- block_info_t, without `m` and `f`, which no code reads or writes.
pub record BlockInfo : Type 0 where
  pub initialized : ℕ
  pub pchan : ℕ
  pub nchan : ℕ
  pub mcnt_start : ℕ
  pub mcnt_log_late : ℕ
  pub out_of_seq_cnt : ℕ
  pub block_i : ℕ
  pub block_packet_counter : ℕ → ℕ

-- A `static block_info_t` before its first use.
abbrev pub zero_block_info : BlockInfo
zero_block_info = record {
  initialized = 0;
  pchan = 0;
  nchan = 0;
  mcnt_start = 0;
  mcnt_log_late = 0;
  out_of_seq_cnt = 0;
  block_i = 0;
  block_packet_counter = λ _. 0;
}

-- The calls of printf, hashpipe_warn and hashpipe_error while a packet is processed.
pub data Message : Type 0 where
  fill_order : (block_i expected : ℕ) → Message
  block_mismatch : (block_i expected : ℕ) → Message
  bad_sid : (sid : ℕ) → Message
  unexpected_pchan : (pchan expected : ℕ) → Message
  unexpected_nchan : (nchan expected : ℕ) → Message
  late_packet : (mcnts_late : ℕ) → Message
  out_of_seq_mcnt : (mcnt expected : ℕ) → Message
  resetting : (mcnt_start block_i pkt_mcnt : ℕ) → Message

-- (uint64_t)-1, what process_packet returns when it finished no block.
abbrev pub no_block : ℕ
no_block = 2 ^ 64 - 1

-- memcpy(dest + to, src + from, n) on memories addressed by the byte.
unfoldable pub memcpy : (dest : ℕ → ℕ) (to : ℕ) (src : ℕ → ℕ) (from n : ℕ) → ℕ → ℕ
memcpy dest to src from n j = if leb to j && ltb j (to + n) then src (from + (j - to)) else dest j

pub memcpy_inside :
    (dest : ℕ → ℕ) (to : ℕ) (src : ℕ → ℕ) (from n i j : ℕ)
    → i < n
    → j ≡ to + i
    → memcpy dest to src from n j ≡ src (from + i)
unfolding memcpy
memcpy_inside dest to src from n i j h e =
    rw (e, le→leb to (to + i) (omega arith), lt→ltb (to + i) (to + n) (omega arith))
      (ap (λ k. src (from + k)) (omega arith))

pub memcpy_outside :
    (dest : ℕ → ℕ) (to : ℕ) (src : ℕ → ℕ) (from n j : ℕ)
    → (j < to) ⊎ (to + n ≤ j)
    → memcpy dest to src from n j ≡ dest j
unfolding memcpy
memcpy_outside dest to src from n j h = ground arith

-- The block that is to be filled after `last`.
abbrev pub next_fill : Config → Option ℕ → ℕ
next_fill c none = 0
next_fill c (some k) = (k + 1) % c.n_input_blocks

-- How many messages say that a block was filled out of order.
abbrev pub misfilled : List Message → ℕ
misfilled [] = 0
misfilled (Message.fill_order b e ∷ ms) = suc (misfilled ms)
misfilled (Message.block_mismatch b e ∷ ms) = suc (misfilled ms)
misfilled (m ∷ ms) = misfilled ms

-- The hashpipe calls of process_packet succeed.
pub record CallsSucceed (hp : Hashpipe) : Type 0 where
  pub filled : (h : hp.Header) (i : ℕ) → (hp.set_filled h i).0 ≡ Rv.hashpipe_ok
  pub freed : (h : hp.Header) (i : ℕ) → (hp.busywait_free h i).0 ≡ Rv.hashpipe_ok

-- The two waits at the start.
abbrev pub semaphores_at_start : (hp : Hashpipe) → hp.Header → hp.Header
semaphores_at_start hp h = (hp.busywait_free (hp.busywait_free h 0).1 1).1

-- The calls on the semaphores when block number `seq` is handed over: it is set filled, and the block
-- after the next is waited for.
abbrev pub semaphores_of : Config → (hp : Hashpipe) → Option ℕ → hp.Header → hp.Header
semaphores_of c hp none h = h
semaphores_of c hp (some seq) h =
    (hp.busywait_free (hp.set_filled h (seq % c.n_input_blocks)).1 ((seq + 2) % c.n_input_blocks)).1

-- The same for some blocks, one after the other.
abbrev pub semaphores_along : Config → (hp : Hashpipe) → List ℕ → hp.Header → hp.Header
semaphores_along c hp [] h = h
semaphores_along c hp (seq ∷ seqs) h = semaphores_along c hp seqs (semaphores_of c hp (some seq) h)
