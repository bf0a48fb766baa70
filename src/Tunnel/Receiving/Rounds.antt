-- ===== src/Tunnel/Receiving/Rounds.antt =====
-- Whole rounds of read_tfs_pkts (src/iptfs.c) among the interleavings of the two threads.
use iptfs.Egress.{Egress}
use iptfs.Tunnel.Receiving.{Receiving}
