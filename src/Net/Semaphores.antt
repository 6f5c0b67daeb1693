-- ===== src/Net/Semaphores.antt =====
-- What the parts of process_packet of src/s6_net_thread.cpp do to the semaphores of the buffer.
use serendip6_reobs.Base.{ℕ, ◌≡◌, refl, some, arith}
use serendip6_reobs.Config.{Config}
use serendip6_reobs.Databuf.{Hashpipe}
use serendip6_reobs.Databuf.Input.{s6_input_databuf_set_filled, s6_input_databuf_busywait_free}
use serendip6_reobs.Packets.{PacketHeader, semaphores_of}
use serendip6_reobs.Net.{UdpPacket, NetState}
use serendip6_reobs.Net.Block.{calc_block_indexes}
use serendip6_reobs.Net.Process.{take_packet, late}
use serendip6_reobs.Net.Ring.{IsUsable}
use serendip6_reobs.Net.Finish.{finished}
use serendip6_reobs.Net.Invariant.{counted}

pub semaphores-take_packet :
    (c : Config) {hp : Hashpipe} (b r : ℕ) (h : PacketHeader) (f : UdpPacket) (s : NetState hp)
    → (take_packet c b r h f s).0.db.header ≡ s.db.header
unfolding take_packet calc_block_indexes
semaphores-take_packet c b r h f s = ground arith

pub semaphores-late :
    (c : Config) {hp : Hashpipe} (h : PacketHeader) (s : NetState hp)
    → (late c h s).db.header ≡ s.db.header
unfolding late
semaphores-late c h s = ground arith

module _ {c : Config} (u : IsUsable c) {hp : Hashpipe} where
  pub semaphores-counted :
      (h : PacketHeader) (s : NetState hp) → (counted u h s).db.header ≡ s.db.header
  semaphores-counted h s = ground arith

  pub semaphores-finished :
      (seq : ℕ) (h : PacketHeader) (s : NetState hp)
      → (finished u seq h s).db.header ≡ semaphores_of c hp (some seq) s.db.header
  unfolding s6_input_databuf_set_filled s6_input_databuf_busywait_free
  semaphores-finished seq h s = refl
