-- ===== src/Pktsock/Semaphores.antt =====
-- What the parts of process_packet of src/s6_pktsock_thread.cpp do to the semaphores of the buffer, and to
-- its size.
use serendip6_reobs.Base.{ℕ, ◌≡◌, refl, ◌∙◌, Option, none, some, arith}
use serendip6_reobs.Config.{Config}
use serendip6_reobs.Databuf.{Hashpipe, InputDatabuf}
use serendip6_reobs.Databuf.Input.{s6_input_databuf_set_filled, s6_input_databuf_busywait_free}
use serendip6_reobs.Packets.{PacketHeader, semaphores_of}
use serendip6_reobs.Pktsock.{Frame, PktState}
use serendip6_reobs.Pktsock.Block.{calc_block_indexes}
use serendip6_reobs.Pktsock.Process.{take_packet, late}
use serendip6_reobs.Pktsock.Ring.{IsUsable}
use serendip6_reobs.Pktsock.Finish.{finished}
use serendip6_reobs.Pktsock.Invariant.{counted}

-- The buffer `db1` comes from `db` by the calls on the semaphores that the handing over of a block makes,
-- and has as many blocks.
pub record Uses (c : Config) {hp : Hashpipe} (handed : Option ℕ) (db db1 : InputDatabuf hp)
    : Type 0 where
  pub semaphores : db1.header ≡ semaphores_of c hp handed db.header
  pub size : db1.n_block ≡ db.n_block

-- Nothing more is used.
pub Uses-then :
    {c : Config} {hp : Hashpipe} {handed : Option ℕ} {db db1 db2 : InputDatabuf hp}
    → Uses c none db1 db2
    → Uses c handed db db1
    → Uses c handed db db2
Uses-then more first = record {
  semaphores = more.semaphores ∙ first.semaphores;
  size = more.size ∙ first.size;
}

pub Uses-take_packet :
    (c : Config) {hp : Hashpipe} (b r : ℕ) (h : PacketHeader) (f : Frame) (s : PktState hp)
    → Uses c none s.db (take_packet c b r h f s).0.db
unfolding take_packet calc_block_indexes
Uses-take_packet c b r h f s = record { semaphores = ground arith; size = ground arith }

pub Uses-late :
    (c : Config) {hp : Hashpipe} (h : PacketHeader) (s : PktState hp)
    → Uses c none s.db (late c h s).db
unfolding late
Uses-late c h s = record { semaphores = ground arith; size = ground arith }

module _ {c : Config} (u : IsUsable c) {hp : Hashpipe} where
  pub Uses-counted : (h : PacketHeader) (s : PktState hp) → Uses c none s.db (counted u h s).db
  Uses-counted h s = record { semaphores = ground arith; size = ground arith }

  pub Uses-finished :
      (seq : ℕ) (now : ℕ × ℕ) (h : PacketHeader) (s : PktState hp)
      → Uses c (some seq) s.db (finished u seq now h s).db
  unfolding s6_input_databuf_set_filled s6_input_databuf_busywait_free
  Uses-finished seq now h s = record { semaphores = refl; size = refl }
