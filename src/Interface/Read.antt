-- ===== src/Interface/Read.antt =====
-- A round of read_intf_pkts of src/iptfs.c keeps the state of the sending side valid.
use iptfs.Prelude.{
  ℕ, ◌+◌, ◌≤◌, ◌<◌, ◌≡◌, refl, ap, ◌∙◌, sym, List, [], ◌∷◌, ◌++◌, length, length-append,
  length-take, length-drop, count, count-append, take, drop, set, Option, none, some, Outcome, ok,
  stop, Returns, arith, ==_refl,
}
use iptfs.Mbuf.{Mbuf, store}
use iptfs.Mqueue.{Mqueue, mqueue_pop}
use iptfs.Mqueue.Stack
use iptfs.Mqueue.Stack.{stack, ptrs, length-stack, Popped, mqueue_push_lem, mqueue_pop_lem}
use iptfs.Ingress.{Ingress}
use iptfs.Ingress.Release.{mqueue_push_reset}
use iptfs.Ingress.State.{IsValid, waiting}
use iptfs.Ingress.Sent.{Kept}
use iptfs.Interface.{filled, keep_packet, read_intf_pkt}

length-filled :
    (m : Mbuf) (bytes : List ℕ)
    → m.start + length bytes ≤ length m.space
    → length (filled m bytes).space ≡ length m.space
length-filled m bytes h = omega (
  arith,
  length-append (take m.start m.space) (bytes ++ drop (m.start + length bytes) m.space),
  length-append bytes (drop (m.start + length bytes) m.space),
  length-take m.start m.space,
  length-drop (m.start + length bytes) m.space,
)

-- The packet that a read leaves: at least an IPv4 header, and inside the buffer.
abbrev pub FitsBuffer : Mbuf → Option (List ℕ) → Type 0
FitsBuffer m none = Unit {0}
FitsBuffer m (some bytes) = (20 ≤ length bytes) × (m.start + length bytes ≤ length m.space)

-- What a round does to the queues: a failed read changes nothing in them, and a packet comes on top of
-- the stack of waiting ones.
abbrev pub Queued : Ingress → ℕ → Option (List ℕ) → Ingress → Type 0
Queued st p none st' = (waiting st' ≡ waiting st) × (stack st'.freeq ≡ stack st.freeq)
Queued st p (some bytes) st' =
    (stack st'.inq ≡ p ∷ stack st.inq)
    × (stack st.freeq ≡ p ∷ stack st'.freeq)
    × (st'.leftover ≡ st.leftover)
    × (st'.mbufs p ≡ filled (st.mbufs p) bytes)

module _ {st : Ingress} {p : ℕ} {freeq' : Mqueue} (v : IsValid st)
    (top : stack st.freeq ≡ p ∷ stack freeq') (fv : Stack.IsValid freeq')
    (size : freeq'.size ≡ st.freeq.size) (hdrspace : freeq'.hdrspace ≡ st.freeq.hdrspace) where
  depth-popped : st.freeq.depth ≡ freeq'.depth + 1
  depth-popped = omega (arith, length-stack st.freeq, length-stack freeq', ap length top)

  own :
      (q : ℕ) {s : List ℕ}
      → s ≡ p ∷ stack st.inq
      → count q (ptrs st.leftover ++ s) + count q (stack freeq')
        ≡ count q (waiting st) + count q (stack st.freeq)
  own q {s} pile = ground (
    arith,
    ap (count q) pile,
    ap (count q) top,
    count-append q (ptrs st.leftover) s,
    count-append q (ptrs st.leftover) (stack st.inq),
  )

  -- The bytes of a packet are put on the queue.
  pub packet_lem :
      (b : ℕ) (bs : List ℕ)
      → FitsBuffer (st.mbufs p) (some (b ∷ bs))
      → st.inq.depth < st.inq.size
      → Returns
          (λ st'. Kept st st' × Queued st p (some (b ∷ bs)) st')
          (keep_packet (record st { freeq = freeq' }) p (some (b ∷ bs)))
  unfolding keep_packet
  packet_lem b bs (long, inside) room =
      let mbufs = store st.mbufs p (filled (st.mbufs p) (b ∷ bs)) in
      let (pushed, pile, valid) = mqueue_push_lem mbufs p v.inq_valid room in
      rw pushed (
        record {
          valid = record {
            distinct = λ q. omega (arith, v.distinct q, own q pile);
            sound = record {
              at = λ q. ground (arith, v.sound.at q, length-filled (st.mbufs p) (b ∷ bs) inside);
            };
            spacious =
                λ q. ground (arith, v.spacious q, length-filled (st.mbufs p) (b ∷ bs) inside);
            unused = λ q. ground (arith, v.unused q);
            inq_valid = valid;
            freeq_valid = fv;
            capacity = omega (
              arith,
              v.capacity,
              depth-popped,
              size,
              ap length pile,
              length-append (ptrs st.leftover) (
                  stack (record st.inq {
                    queue = set st.inq.queue st.inq.depth p;
                    depth = st.inq.depth + 1;
                  })),
              length-append (ptrs st.leftover) (stack st.inq),
            );
            long = λ q k. ground (arith, v.long q, ap (count q) pile);
          };
          own = λ q. own q pile;
          size = size;
        },
        (pile, top, refl, rw (==_refl p)),
      )

  pub failed_lem :
      Returns
        (λ st'. Kept st st' × Queued st p none st')
        (keep_packet (record st { freeq = freeq' }) p none)
  unfolding keep_packet
  failed_lem =
      let (pushed, pile, valid) =
        mqueue_push_reset st.mbufs p fv
          (omega (arith, v.capacity, depth-popped, v.freeq_valid.depth_in)) (v.unused p) in
      rw pushed (
        record {
          valid = record {
            distinct = λ q. omega (arith, v.distinct q, ap (count q) (pile ∙ sym top));
            sound = record { at = λ q. ground (arith, v.sound.at q, v.spacious q) };
            spacious = λ q. ground (arith, v.spacious q);
            unused = λ q. ground (arith, v.unused q);
            inq_valid = v.inq_valid;
            freeq_valid = valid;
            capacity = omega (arith, v.capacity, depth-popped);
            long = λ q k. ground (
              arith,
              v.long q,
              v.distinct q,
              ap (count q) top,
              count-append q (ptrs st.leftover) (stack st.inq),
            );
          };
          own = λ q. omega (arith, ap (count q) (pile ∙ sym top));
          size = size;
        },
        (refl, pile ∙ sym top),
      )

-- A pop of a queue whose top is known.
popped :
    (mq : Mqueue) {p : ℕ} {rest : List ℕ} (o : Outcome (ℕ × Mqueue))
    → Popped mq o
    → stack mq ≡ p ∷ rest
    → (mq' : Mqueue) × (o ≡ ok (p, mq'))
      × (stack mq ≡ p ∷ stack mq')
      × Stack.IsValid mq'
      × (mq'.size ≡ mq.size)
      × (mq'.hdrspace ≡ mq.hdrspace)
popped mq (stop e) h top = absurd cc
popped mq {p} {rest} (ok (a, mq')) (at, valid, size, hdrspace) top =
    let same : a ≡ p = cc in
    (mq', ap (λ k. ok (k, mq')) same, rw (← same) at, valid, size, hdrspace)

-- From a valid state with a buffer on the free queue and an interface queue of at least its size, a
-- round of read_intf_pkts whose read fails or returns a packet that fits the buffer and has at least 20
-- bytes neither blocks nor aborts, and leaves a valid state with the same mbufs. A failed read leaves
-- the queues as they were; a packet comes on top of the waiting ones, in the buffer that was on top of
-- the free queue.
pub read_intf_pkt_lem :
    {st : Ingress} (p : ℕ) (rest : List ℕ) (packet : Option (List ℕ))
    → IsValid st
    → st.freeq.size ≤ st.inq.size
    → stack st.freeq ≡ p ∷ rest
    → FitsBuffer (st.mbufs p) packet
    → Returns (λ st'. Kept st st' × Queued st p packet st') (read_intf_pkt st packet)
unfolding read_intf_pkt
read_intf_pkt_lem {st} p rest packet v room at_top fits =
    let (freeq', got, top, fv, size, hdrspace) =
      popped st.freeq (mqueue_pop st.freeq) (mqueue_pop_lem v.freeq_valid) at_top in
    rw got (kept packet top fv size hdrspace fits)
  where
    kept :
        {freeq' : Mqueue} (packet : Option (List ℕ))
        → stack st.freeq ≡ p ∷ stack freeq'
        → Stack.IsValid freeq'
        → freeq'.size ≡ st.freeq.size
        → freeq'.hdrspace ≡ st.freeq.hdrspace
        → FitsBuffer (st.mbufs p) packet
        → Returns
            (λ st'. Kept st st' × Queued st p packet st')
            (keep_packet (record st { freeq = freeq' }) p packet)
    kept none top fv size hdrspace fits = failed_lem v top fv size hdrspace
    kept (some []) top fv size hdrspace fits = absurd (omega arith)
    kept (some (b ∷ bs)) top fv size hdrspace fits = packet_lem v top fv size hdrspace b bs fits (
        omega (
          arith,
          v.capacity,
          depth-popped v top fv size hdrspace,
          length-stack st.inq,
          length-append (ptrs st.leftover) (stack st.inq),
        ))
