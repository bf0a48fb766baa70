-- ===== src/Tunnel.antt =====
-- The queues that tfs_tunnel_ingress of src/iptfs.c makes, and the interleavings of its two threads. A
-- thread that waits takes no step. What malloc returns is an argument, `fresh`.
mod Tests
pub mod Buffers
pub mod Passage
pub mod Runs
pub mod Receiving
use iptfs.Prelude.{ℕ, ◌≡◌, List, Option, none, some, Outcome, ok}
use iptfs.Mbuf.{Memory}
use iptfs.Mqueue.{Mqueue, mqueue_new, mqueue_new_freeq, mqueue_pop}
use iptfs.Ingress.{Config, Ingress, maxbuf, hdrspace, write_tfs_pkt}
use iptfs.Interface.{keep_packet}
use iptfs.Interface.Read.{FitsBuffer}

abbrev pub innerqsz : ℕ
innerqsz = 256

-- `args.freeq` and `args.outq`, of `size` entries each; the second thread starts with no packet left
-- over.
unfoldable pub new_queues : ℕ → Memory → Ingress
unfolding mqueue_new mqueue_new_freeq
new_queues size fresh =
    let (freeq, mbufs) = mqueue_new_freeq size maxbuf hdrspace fresh in
    record { mbufs = mbufs; inq = mqueue_new size; freeq = freeq; leftover = none }

unfoldable pub new_ingress : Memory → Ingress
new_ingress fresh = new_queues innerqsz fresh

-- The two parts of a round of the thread of read_intf_pkts, as steps between states and the mbuf that it
-- holds between its pop and its push.
pub data Reads : Ingress → Option ℕ → Ingress → Option ℕ → Type 0 where
  pop :
      {st : Ingress} {p : ℕ} {freeq : Mqueue}
      → mqueue_pop st.freeq ≡ ok (p, freeq)
      → Reads st none (record st { freeq = freeq }) (some p)
  keep :
      {st st' : Ingress} {p : ℕ} (packet : Option (List ℕ))
      → FitsBuffer (st.mbufs p) packet
      → keep_packet st p packet ≡ ok st'
      → Reads st (some p) st' none

-- The states that the two threads reach from the state `begin` and the sequence number `first` (1 in
-- write_tfs_pkts), with the mbuf that the reading thread holds, and the next sequence number. A round of
-- the sending thread is one step.
pub data Reachable (c : Config) (sendmsg : List ℕ → Option ℕ) (begin : Ingress) (first : ℕ)
    : Ingress → Option ℕ → ℕ → Type 0 where
  start : Reachable c sendmsg begin first begin none first
  read :
      {st st' : Ingress} {held held' : Option ℕ} {seq : ℕ}
      → Reachable c sendmsg begin first st held seq
      → Reads st held st' held'
      → Reachable c sendmsg begin first st' held' seq
  write :
      {st st' : Ingress} {seq seq' : ℕ} {held : Option ℕ} {datagram : Option (List ℕ)}
      → Reachable c sendmsg begin first st held seq
      → write_tfs_pkt c sendmsg st seq ≡ ok (seq', datagram, st')
      → Reachable c sendmsg begin first st' held seq'
