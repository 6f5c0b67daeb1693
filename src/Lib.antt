-- ===== src/Lib.antt =====
-- The data path of SERENDIP VI: packets are received into the blocks of an input buffer, a GPU thread
-- passes each block to an output buffer, and an output thread writes it. The buffers are shared memory
-- of the hashpipe library, each block of which is free or filled; the threads meet only there.
--
-- Parts and files:
--   Config            src/s6_databuf.h: the constants of the builds SOURCE_S6, SOURCE_DIBAS, SOURCE_FAST
--   Databuf           src/s6_databuf.h, src/s6_databuf.cpp: the blocks, the buffers, and the functions
--                     s6_input_databuf_..., s6_output_databuf_...; Databuf.Wait is the loop in which a
--                     thread waits for a block
--   Packets           what the two packet threads share: packet_header_t, block_info_t, memcpy
--   Packets.Stats     the timing statistics of their main loops
--   Packets           Semaphores and Ledger: the calls on the semaphores along a run, and the blocks that
--                     a thread holds meanwhile
--   Logger            src/s6_logger.h, and its copy in src/s6_net_thread.cpp: the in-memory log
--   Window            no code, but what the two packet threads promise, by the mcnts of the packets alone:
--                     which block is written, when it is handed over, when a late or stray packet is
--                     ignored, when a run of strays moves the window. Cases has its four cases, Order
--                     is about the turn of the blocks
--   Pktsock           src/s6_pktsock_thread.cpp: get_header, block_for_mcnt, initialize_block,
--                     set_block_filled, calc_block_indexes, process_packet, init and run. Header, Block,
--                     Process, Init and Run have the definitions; Ring states the invariant of the two
--                     blocks that the thread holds; Finish, Reset, Invariant, Semaphores and Trace
--                     carry it through process_packet and relate it to the window, Start does so for a
--                     sequence of packets, Rounds for run as a whole; Owned, Handed and Written are about
--                     the blocks that a packet changes, Stored about its payload, Assembly and Payloads
--                     about all payloads of the window, Missed and Counting about the counts of packets,
--                     Layout about places in a block, Results about what is returned. Bounds is about the
--                     frames that write nothing behind the data of a block, Confined about the thread on
--                     such frames
--   Net               src/s6_net_thread.cpp: the same functions of the older thread for SOURCE_S6. Copy has
--                     s6_memcpy, Block and Process have process_packet, Benchmark s6_memcpy_benchmark, Run
--                     the start and the main loop; Ring, Finish, Reset, Invariant, Semaphores, Trace
--                     and Start are as in Pktsock, Rounds goes on to the main loop, Untouched is about the
--                     benchmark; Bounds and Confined are as in Pktsock; Stored is about payloads, Logging
--                     about the log
--   Pfb               src/pfb_fir.cu: the kernel of a polyphase filter as one thread runs it (Pfb), its
--                     sums (Fir) and a launch of it (Grid)
--   Gpu               src/s6_gpu_thread.cpp: a round of run
--   Output            src/s6_output_thread.cpp: write_to_file and a round of run, for SOURCE_FAST
--   FakeNet           src/s6_fake_net_thread.cpp, src/s6_gen_fake_data.cpp
--   Pipeline          the three threads together. System has their state and their steps: a packet of the
--                     packet thread, a round of the GPU thread, a round of the output thread. Semaphores is
--                     what hashpipe documents of its calls, Ring a buffer as a queue, Rounds the rounds on
--                     the semaphores, Incoming and Outgoing the two buffers, Invariant what all steps keep,
--                     Delivered and Delivery the order and the data of what is written, Progress the absence of deadlock,
--                     Parcels and Payload go from the frames to the files
--   Tests             concrete packets, blocks and buffers
--
-- The state of a thread is a record of its variables, of the buffers as it sees them, and of the keys of
-- the status buffer that it reads or writes. A function of the program that can end the thread returns a
-- `Result` (Base.Effects). A uint64_t is a number with `% 2 ^ 64` written out in the operations add64,
-- sub64, mul64; an unsigned int likewise with 2 ^ 32; memory is a function from byte numbers to bytes. A
-- C array is a function of its index.
--
-- Hashpipe is not part of this repository. Its calls are the fields of the record `Hashpipe`, on a header
-- of any type; `CallsSucceed` says that the two calls of process_packet return HASHPIPE_OK, and
-- `Pipeline.Semaphores` what the calls do to the flags of the blocks. In the theorems on one thread, what
-- other threads do to the semaphores may happen in any call; in those on the three threads a packet or a
-- round is one step, taken when the block that it waits for is there. Steps that overlap in
-- time are not modelled. Times, frames, packets, what sprintf
-- prints, and whether a file can be made are arguments.
--
-- The blocks of a buffer stand one behind the other in shared memory. In the model each has a memory of its
-- own: what a copy writes behind the data of a block is kept with that block, and is not carried into the
-- header of the next. So the theorems on a packet thread that stores what it receives are about frames and
-- packets that fit in their places, of which Pktsock.Confined and Net.Confined show that they write nothing behind the data. What others write
-- there, in the program, is in Pktsock.Layout and Net.Stored: the size test of the pktsock thread lets
-- payloads through that are up to 24 bytes too long, and the net thread tests no size at all. What the
-- threads do after such a packet is not modelled. The lemmas with no condition on sizes, as
-- Pktsock.Trace, Pktsock.Start and Net.Rounds have them, are about the model alone.
--
-- Bounds: the loop that waits makes at most `fuel` calls, and Databuf.Wait shows that any bound above the
-- number of timeouts is enough. `IsUsable` is what the ring needs of the constants: two mcnts in a block,
-- two blocks, and at most 2 ^ 40 mcnts in the buffer. Packet mcnts have at most 56 bits,
-- so that no 64-bit sum of the reset wraps.
--
-- Not modelled: what the calls that open sockets and join groups do, the text written to the terminal, status keys
-- that hold floats, the ETFITS writer and the redis client (no source here), the spectroscopy (commented
-- out), the OpenCL side of pfb_fir.cu (compiled out), and the scripts. Of the net thread's size test the
-- value -1 is left out, since with recvmmsg no code stores it there.
pub mod Base
pub mod Config
pub mod Databuf
pub mod Packets
pub mod Pfb
pub mod Logger
pub mod Window
pub mod Pktsock
pub mod Net
pub mod Gpu
pub mod Output
pub mod FakeNet
pub mod Pipeline
pub mod Tests
