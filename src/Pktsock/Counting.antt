-- ===== src/Pktsock/Counting.antt =====
-- The counts of the packets from the start of the thread through any sequence of frames.
use serendip6_reobs.Base.{ℕ, ◌<◌, ◌≡◌, refl, ok, arith, ◌>>=◌, List, [], ◌∷◌}
use serendip6_reobs.Config.{Config, fast_of}
use serendip6_reobs.Databuf.{Hashpipe, InputDatabuf}
use serendip6_reobs.Databuf.Input.{s6_input_databuf_busywait_free}
use serendip6_reobs.Pktsock.{Frame, Status, PktState}
use serendip6_reobs.Pktsock.Header.{get_header}
use serendip6_reobs.Pktsock.Block.{initialize_block_info}
use serendip6_reobs.Pktsock.Ring.{IsUsable, Inv, CallsSucceed, nm_small}
use serendip6_reobs.Pktsock.Trace.{prepared}
use serendip6_reobs.Pktsock.Run.{start_blocks}
use serendip6_reobs.Pktsock.Start.{
  at_start, process_all, AreFrames, started_blocks, start_blocks_lem, started-Inv, prepared-Inv,
}
use serendip6_reobs.Pktsock.Missed.{Counts, process_packet-Counts}

-- All the frames have a source ID in range.
abbrev pub AreFromBeams : Config → List ((ℕ × ℕ) × Frame) → Type 0
AreFromBeams c [] = Unit
AreFromBeams c ((now, f) ∷ fs) = ((get_header c f).sid < c.n_source_nodes) × AreFromBeams c fs

module _ (n : ℕ) (u : IsUsable (fast_of n)) {hp : Hashpipe} (k : CallsSucceed hp) where
  started-Counts :
      (st : Status) (db : InputDatabuf hp)
      → Counts (fast_of n) (prepared (fast_of n) (at_start st (started_blocks u k db))) 0
  unfolding initialize_block_info s6_input_databuf_busywait_free
  started-Counts st db = ground (arith, nm_small u)

  prepared-Counts :
      {s : PktState hp} {seq : ℕ}
      → Counts (fast_of n) s seq
      → s.binfo.initialized ≡ 1
      → Counts (fast_of n) (prepared (fast_of n) s) seq
  unfolding initialize_block_info
  prepared-Counts counts started = ground arith

  process_all-Counts_from :
      (fs : List ((ℕ × ℕ) × Frame)) (s : PktState hp) (seq : ℕ)
      → AreFrames fs
      → AreFromBeams (fast_of n) fs
      → Inv (fast_of n) (prepared (fast_of n) s) seq
      → Counts (fast_of n) (prepared (fast_of n) s) seq
      → (t : PktState hp) × (last : ℕ) × (process_all (fast_of n) fs s ≡ ok t)
        × Inv (fast_of n) (prepared (fast_of n) t) last
        × Counts (fast_of n) (prepared (fast_of n) t) last
  unfolding process_all
  process_all-Counts_from [] s seq b good i counts = (s, seq, refl, i, counts)
  process_all-Counts_from ((now, f) ∷ fs) s seq b good i counts =
      let (s1, r, seq1, e, i1, counts1) = process_packet-Counts n u k s now f b.0 i counts good.0 in
      rw e (
        process_all-Counts_from fs s1 seq1 b.1 good.1 (prepared-Inv u k i1)
          (prepared-Counts counts1 i1.started))

  -- In a usable SOURCE_FAST build, while the hashpipe calls succeed: from the start of the thread, every
  -- sequence of frames of bytes with source IDs in range is processed to its end, and then, for each of
  -- the two blocks that the thread holds, the counter of missed packets in its header and the thread's
  -- own counter of its packets add up to the number of mcnts of a block, modulo 2 ^ 64.
  -- In the model, whose blocks do not touch: see Confined for the frames of which this is so in memory.
  pub process_all-Counts :
      (st : Status) (db : InputDatabuf hp) (fs : List ((ℕ × ℕ) × Frame))
      → AreFrames fs
      → AreFromBeams (fast_of n) fs
      → (t : PktState hp) × (last : ℕ) × ((start_blocks (fast_of n) db >>= λ db1.
            process_all (fast_of n) fs (at_start st db1))
          ≡ ok t)
        × Inv (fast_of n) (prepared (fast_of n) t) last
        × Counts (fast_of n) (prepared (fast_of n) t) last
  process_all-Counts st db fs b good =
      let (t, last, e, i, counts) =
        process_all-Counts_from fs (at_start st (started_blocks u k db)) 0 b good
          (started-Inv u k st db) (started-Counts st db) in
      (t, last, rw (start_blocks_lem u k db) e, i, counts)
