-- ===== src/Interface.antt =====
-- read_intf_pkts of src/iptfs.c: one round of the loop of the thread that reads packets from the
-- interface. What `read` returns is an argument: nothing if it fails, else the bytes.
pub mod Read
use iptfs.Prelude.{
  ℕ, ◌+◌, true, false, List, [], ◌∷◌, ◌++◌, length, take, drop, Option, none, some, Outcome, ok,
  ◌>>=◌,
}
use iptfs.Mbuf.{Mbuf, store}
use iptfs.Mqueue.{Mqueue, mqueue_pop, mqueue_push}
use iptfs.Ingress.{Ingress}

-- The packet that `read` put at `start`, up to `m->start + n`.
abbrev pub filled : Mbuf → List ℕ → Mbuf
filled m bytes = record m {
  space = take m.start m.space ++ (bytes ++ drop (m.start + length bytes) m.space);
  end = m.start + length bytes;
}

-- What becomes of the mbuf `p`. After a read of no bytes the code goes on without it.
unfoldable pub keep_packet : Ingress → ℕ → Option (List ℕ) → Outcome Ingress
keep_packet st p none = mqueue_push st.mbufs st.freeq p true >>= λ (_, mbufs', freeq').
    ok (record st { mbufs = mbufs'; freeq = freeq' })
keep_packet st p (some []) = ok st
keep_packet st p (some (b ∷ bs)) =
    let mbufs = store st.mbufs p (filled (st.mbufs p) (b ∷ bs)) in
    mqueue_push mbufs st.inq p false >>= λ (_, mbufs', inq').
    ok (record st { mbufs = mbufs'; inq = inq' })

unfoldable pub read_intf_pkt : Ingress → Option (List ℕ) → Outcome Ingress
read_intf_pkt st packet =
    mqueue_pop st.freeq >>= λ (p, freeq'). keep_packet (record st { freeq = freeq' }) p packet
