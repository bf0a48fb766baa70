-- ===== src/Lib.antt =====
-- IP-TFS: a tunnel that carries IP packets in frames of one size, sent at a constant rate.
--
-- The program has two sides. On the ingress side one thread reads packets from an interface into
-- mbufs and pushes them on a queue, and a second thread takes them off, packs them into frames and
-- sends one frame in each interval. On the egress side one thread receives frames, cuts them into
-- packets (lists of pieces of the received mbufs) and pushes these on a queue, and a second thread
-- writes them to the interface. Buffers go round through free queues. The receiver reports losses to
-- the sender of the other direction, which adapts its rate.
--
-- Files and the code they model:
--   Prelude     the shared types, lemmas and tests; Prelude/Control the ways in which a routine ends
--   Bytes       put32, put16, get32, get16 (src/iptfs.c)
--   Packing     what a frame carries, as lists of bytes, apart from the code: `pack`; Glue holds the
--               laws of packets that go on over several frames
--   Util        RunAvg: runavg_new, runavg_add; Clock: clock_delta, periodic_is_expired, st_reset,
--               st_check; RateLimit: new_ratelimit, limit; Pps: periodic_* and pps_* (src/util.c)
--   Mbuf        struct mbuf and its inline functions (src/iptfs.h), mbuf_new (src/mbuf.c)
--   Mqueue      struct mqueue and mqueue_* (src/mbuf.c); Stack and Init hold the proofs
--   Iovec       arrays of struct iovec, iovlen (src/iptfs.c)
--   Ingress     write_tfs_pkt, write_empty_tfs_pkt (src/iptfs.c); State, Stream, Dense, Filled,
--               Rounds, Fill, Release, Empty, Sent, Kept and Write hold the proofs on the state,
--               the waiting bytes, the agreement with `pack`, what the loop does, the rounds of
--               the packing loop, the loop, the release of mbufs, the empty frame, what a call
--               does, the state after it, and the whole; Drain: the loop of write_tfs_pkts
--   Ack         send_ack, recv_ack (src/iptfs.c)
--   Miov        struct miov, miov_addmbuf, mbuf_deref (src/iptfs.h), miovq_*, miov_reset (src/mbuf.c);
--               Deref, References and Counts hold the proofs on references to buffers
--   Egress      getiplen, add_to_inner_packet (src/iptfs.c); Output: one round of write_intf_pkts;
--               Setup: the queues of tfs_tunnel_egress; Aborts: its failing assertions; Progress
--               proves that the calls end; Pieces, Steps, Carry, Moves, Deliver, Chain, Frames,
--               Unpack and Frame follow a frame from the single steps to the packets that come out;
--               Counted, Rearranged, Counting and Returned follow the reference counts; Resync: a frame
--               after lost ones
--   Receive     one round of read_tfs_pkts (src/iptfs.c); Losses, Counting and Recovery hold the
--               proofs on the record of losses, the reference counts and what comes out after lost
--               frames
--   Interface   one round of read_intf_pkts (src/iptfs.c)
--   Tunnel      the queues of tfs_tunnel_ingress (src/iptfs.c), and the interleavings of its two
--               threads; Passage: a frame from one end to the other; Runs: frame after frame, with the
--               packets written to the interface; Receiving: what tfs_tunnel_egress and the start of
--               read_tfs_pkts set up, and the interleavings of those two threads;
--               Receiving/Rounds: rounds that nothing interrupts
--   Command     the options of main (src/main.c), with the proof in Last; Socket: tfs_connect, tfs_accept,
--               with the proof in Socket/Chosen
--   Tests       the theorems at concrete inputs, with Command/Tests, Ingress/Tests, Egress/Tests,
--               Receive/Tests, Tunnel/Tests, Tunnel/Runs/Tests and Tunnel/Receiving/Tests
-- Functions keep their names. A pointer to an mbuf or a miov is a number, and a memory maps numbers to
-- structs; a pointer into a buffer is an offset. State is passed and returned. A routine that may end
-- the process, wait for another thread, leave an array or divide by zero returns an Outcome, which
-- names the way. Integers are natural numbers with the wrap-around of the C type written out.
--
-- Bounds: the packing loop of write_tfs_pkt has fuel for two rounds more than there are packets in the
-- queue, which is enough since each round but the last takes a packet. add_to_inner_packet has fuel
-- for its calls of itself; one more than the bytes of the buffer is enough, and that is what a round
-- of the receiving loop gives it.
--
-- In Tunnel/Receiving each packet has at most 10000 pieces, by the sizes that tfs_tunnel_egress
-- computes, so no reference count comes near 2 ^ 32.
--
-- Not modelled: the tun device (src/main.c); memory allocation; log lines and the counters for
-- them. Runs from one end of the tunnel to the other are runs without loss, and start with the
-- packets that wait; new packets at the sender are in the runs of the ingress side. The locks are
-- not modelled either: each queue operation is what one thread does while it holds the lock, and a
-- wait ends the run with `blocked`. On the ingress side a round of the sending thread is one step,
-- which may fall between the parts of a round of the reading thread; on the egress side the writing
-- thread runs between the parts of a round of the receiving one, the activations of
-- add_to_inner_packet included. Clock readings, received datagrams and results of system calls are
-- arguments; so are the two numbers that pps_new makes with floats. The atomics of the sending rate
-- are plain reads and writes.
--
-- malloc does not say what is in its memory, and mqueue_new_freeq and miovq_new_freeq leave the
-- reference counts and the pieces unset. The theorems on them start from a state in which these are
-- right; Tunnel/Buffers and Tunnel/Receiving/Fresh say when the code makes such a state.
pub mod Prelude
pub mod Bytes
pub mod Packing
pub mod Util
pub mod Mbuf
pub mod Mqueue
pub mod Iovec
pub mod Ingress
pub mod Ack
pub mod Miov
pub mod Egress
pub mod Interface
pub mod Tunnel
pub mod Command
pub mod Receive
pub mod Tests
