-- ===== src/Pipeline/Outgoing.antt =====
-- The output buffer as the queue between the GPU thread and the output thread; and what a round of either
-- thread does to the queues on its sides.
use serendip6_reobs.Base.{
  ℕ, suc, ◌+◌, ◌%◌, ◌<◌, ◌≡◌, ◌≢◌, sym, ap, ◌∙◌, arith, true, false, List, [], ◌∷◌, ◌++◌, length,
  length-snoc, update,
}
use mathlib.Core.Path.{subst}
use serendip6_reobs.Config.{Config, n_data_bytes_per_block}
use serendip6_reobs.Databuf.{Hashpipe, InputDatabuf, InputBlock, OutputDatabuf, OutputBlock}
use serendip6_reobs.Window.{Window}
use serendip6_reobs.Pktsock.{PktState}
use serendip6_reobs.Pktsock.Trace.{prepared, Follows}
use serendip6_reobs.Gpu.{pass_block}
use serendip6_reobs.Pipeline.Ring.{
  IsFilled, IsFilled-push, IsFilled-pop, IsFilled-room, Stands, Stands-kept, Stands-push, ring-ne,
}
use serendip6_reobs.Pipeline.Semaphores.{Semaphores}
use serendip6_reobs.Pipeline.Incoming.{Incoming}

-- The data of the block is passed on whole.
abbrev pub IsWhole : Config → Type 0
IsWhole c =
    (chan : ℕ) (i : InputBlock) (o : OutputBlock)
    → chan ≢ 0
    → (j : ℕ) → j < n_data_bytes_per_block c
    → (pass_block c chan i o).bytes j ≡ i.bytes j

-- A block of the output buffer starts with this data.
abbrev pub StartsWith : Config → (ℕ → ℕ) → OutputBlock → Type 0
StartsWith c bytes b = (j : ℕ) → j < n_data_bytes_per_block c → b.bytes j ≡ bytes j

-- The blocks of the output buffer from number `o` on are filled and have the data of the list.
pub record Outgoing (c : Config) {hp : Hashpipe} (sem : Semaphores hp) (d : OutputDatabuf hp)
    (o : ℕ) (q : List (ℕ → ℕ)) : Type 0 where
  pub flags : IsFilled c.n_output_blocks o (length q) (sem.filled d.header)
  pub contents : Stands (StartsWith c) c.n_output_blocks o q d.block
  pub size : d.n_block ≡ c.n_output_blocks

module _ {c : Config} {hp : Hashpipe} (sem : Semaphores hp) where
  -- The window is a matter of the blocks, not of the semaphores.
  pub Follows-freed :
      (s : PktState hp) {w : Window} (d : InputDatabuf hp)
      → d.block ≡ s.db.block
      → Follows c (prepared c s) w
      → Follows c (prepared c (record s { db = d })) w
  Follows-freed s {w} d same fo = record {
    ring = record {
      started = fo.ring.started;
      start = fo.ring.start;
      current = fo.ring.current;
      bound = fo.ring.bound;
      order = fo.ring.order;
      quiet = fo.ring.quiet;
      cur_header = rw same fo.ring.cur_header;
      next_header = rw same fo.ring.next_header;
    };
    strays = fo.strays;
  }

  -- The first block of the input buffer is taken.
  pub Incoming-taken :
      (s : PktState hp) {w : Window} {g : ℕ} {bytes : ℕ → ℕ} {q : List (ℕ → ℕ)}
      (d : InputDatabuf hp)
      → Incoming c sem s w g (bytes ∷ q)
      → d.block ≡ s.db.block
      → d.n_block ≡ s.db.n_block
      → ((j : ℕ)
          → sem.filled d.header j ≡ update (sem.filled s.db.header) (g % c.n_input_blocks) false j)
      → Incoming c sem (record s { db = d }) w (suc g) q
  Incoming-taken s {w} {g} {bytes} {q} d i same size freed = record {
    follows = Follows-freed s d same i.follows;
    place = i.place ∙ ap (λ x. x % c.n_input_blocks) (omega arith);
    held = omega (arith, i.held);
    flags = IsFilled-pop i.flags freed;
    contents = rw same i.contents.1;
    size = size ∙ i.size;
  }

  -- A block is put behind the last.
  pub Outgoing-push :
      {d now : OutputDatabuf hp} {o : ℕ} {q : List (ℕ → ℕ)} (bytes : ℕ → ℕ)
      → 0 < c.n_output_blocks
      → Outgoing c sem d o q
      → sem.filled d.header ((o + length q) % c.n_output_blocks) ≡ false
      → StartsWith c bytes (now.block ((o + length q) % c.n_output_blocks))
      → ((j : ℕ) → j ≢ (o + length q) % c.n_output_blocks → now.block j ≡ d.block j)
      → now.n_block ≡ d.n_block
      → ((j : ℕ)
          → sem.filled now.header j
            ≡ update (sem.filled d.header) ((o + length q) % c.n_output_blocks) true j)
      → Outgoing c sem now o (q ++ (bytes ∷ []))
  Outgoing-push {d} {now} {o} {q} bytes pos i free put same size filled =
      let room = IsFilled-room i.flags pos free in
      record {
        flags =
            subst (λ x. IsFilled c.n_output_blocks o x (sem.filled now.header))
              (sym (length-snoc q bytes)) (IsFilled-push i.flags room filled);
        contents =
            Stands-push (StartsWith c) c.n_output_blocks o q bytes now.block
              (Stands-kept (StartsWith c) c.n_output_blocks o q d.block now.block
                (λ e first. same ((o + e) % c.n_output_blocks) (
                  ring-ne o e (length q) c.n_output_blocks (omega (arith, first, room)) room
                    (omega (arith, first))))
                i.contents)
              put;
        size = size ∙ i.size;
      }

  -- The first block is written and freed.
  pub Outgoing-pop :
      {d now : OutputDatabuf hp} {o : ℕ} {bytes : ℕ → ℕ} {q : List (ℕ → ℕ)}
      → 0 < c.n_output_blocks
      → Outgoing c sem d o (bytes ∷ q)
      → ((j : ℕ) → j ≢ o % c.n_output_blocks → now.block j ≡ d.block j)
      → now.n_block ≡ d.n_block
      → ((j : ℕ)
          → sem.filled now.header j ≡ update (sem.filled d.header) (o % c.n_output_blocks) false j)
      → Outgoing c sem now (suc o) q
  Outgoing-pop {d} {now} {o} {bytes} {q} pos i same size freed = record {
    flags = IsFilled-pop i.flags freed;
    contents =
        Stands-kept (StartsWith c) c.n_output_blocks (suc o) q d.block now.block
          (λ e first. same ((suc o + e) % c.n_output_blocks) (behind e first)) i.contents.1;
    size = size ∙ i.size;
  }
    where
      behind : (e : ℕ) → e < length q → (suc o + e) % c.n_output_blocks ≢ o % c.n_output_blocks
      behind e first at =
          ring-ne o (suc e) 0 c.n_output_blocks (omega (arith, first, i.flags.fits)) pos
            (omega arith)
            (ap (λ x. x % c.n_output_blocks) (omega arith)
              ∙ at
              ∙ ap (λ x. x % c.n_output_blocks) (omega arith))
