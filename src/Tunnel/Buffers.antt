-- ===== src/Tunnel/Buffers.antt =====
-- No buffer of the ingress side of src/iptfs.c is lost or in two places, whatever the interleaving.
use iptfs.Prelude.{
  ℕ, ◌+◌, ◌<◌, ◌≡◌, inl, inr, refl, ap, ◌∙◌, Bool-cases, List, [], ◌∷◌, ◌++◌, length, length-append,
  count, count-append, set, Option, none, some, ltb, ◌==◌, if◌then◌else◌, ok, Returns, Returns-map,
  arith, subst, ==→ne,
}
use iptfs.Mbuf.{Memory}
use iptfs.Mqueue.{Mqueue, mqueue_new, mqueue_push}
use iptfs.Mqueue.Stack
use iptfs.Mqueue.Stack.{stack, ptrs, length-stack, Popped, mqueue_pop_lem, mqueue_push_lem}
use iptfs.Mqueue.Init.{mqueue_new_freeq_lem, mqueue_new-IsValid}
use iptfs.Ingress.{Config, Ingress, maxbuf, hdrspace, write_tfs_pkt}
use iptfs.Ingress.State.{Fits, IsValid, waiting}
use iptfs.Ingress.Sent.{Kept}
use iptfs.Ingress.Write.{write_tfs_pkt_lem}
use iptfs.Interface.{keep_packet}
use iptfs.Miov.References.{length-lt}
use iptfs.Interface.Read.{FitsBuffer, Queued, packet_lem, failed_lem}
use iptfs.Tunnel.{new_queues, Reachable, start, read, write, Reads, pop, keep}

-- Valid, and each of the buffers in just one place: held, waiting, or free.
abbrev pub Complete : ℕ → Option ℕ → Ingress → Type 0
Complete n held st =
    IsValid st
    × ((q : ℕ)
        → count q (ptrs held) + count q (waiting st) + count q (stack st.freeq)
          ≡ (if ltb q n then 1 else 0))
    × (st.freeq.size ≡ n)

-- Where the memory of the buffers has no reference counts but 0, which nothing in the code ensures,
-- tfs_tunnel_ingress makes such a state.
pub new_queues-Complete :
    (n : ℕ) (fresh : Memory)
    → ((p : ℕ) → length (fresh p).space ≡ maxbuf)
    → ((p : ℕ) → (fresh p).refcnt ≡ 0)
    → Complete n none (new_queues n fresh)
unfolding new_queues mqueue_new
new_queues-Complete n fresh sizes clear =
    let (valid, depth, size, hdr, own, empty) = mqueue_new_freeq_lem n maxbuf hdrspace fresh in
    (
      record {
        distinct = λ q. ground (arith, own q);
        sound = record { at = λ p. (omega arith, omega (arith, sizes p)) };
        spacious = λ p. omega (arith, sizes p, hdr);
        unused = clear;
        inq_valid = mqueue_new-IsValid n;
        freeq_valid = valid;
        capacity = omega (arith, depth, size);
        long = λ q k. absurd (omega arith);
      },
      λ q. omega (arith, own q),
      size,
    )

Complete-Kept :
    (n : ℕ) (held : Option ℕ) {st st' : Ingress}
    → Complete n held st
    → Kept st st'
    → Complete n held st'
Complete-Kept n held (v, own, whole) k =
    (k.valid, λ q. omega (arith, k.own q, own q), k.size ∙ whole)

-- A packet was queued, so there was room.
had_room :
    (st : Ingress) (p b : ℕ) (bs : List ℕ) {st' : Ingress}
    → Stack.IsValid st.inq
    → keep_packet st p (some (b ∷ bs)) ≡ ok st'
    → st.inq.depth < st.inq.size
unfolding keep_packet mqueue_push
had_room st p b bs v e = elim (Bool-cases (st.inq.depth == st.inq.size)) [
  | inl full ↦ absurd (ground (arith, e))
  | inr free ↦ omega (arith, v.depth_in, ==→ne _ _ free)
]

keep_packet-Kept :
    {st st' : Ingress} {p : ℕ} {freeq' : Mqueue} (packet : Option (List ℕ))
    → IsValid st
    → stack st.freeq ≡ p ∷ stack freeq'
    → Stack.IsValid freeq'
    → freeq'.size ≡ st.freeq.size
    → freeq'.hdrspace ≡ st.freeq.hdrspace
    → FitsBuffer (st.mbufs p) packet
    → keep_packet (record st { freeq = freeq' }) p packet ≡ ok st'
    → Kept st st'
keep_packet-Kept {st} {st'} {p} none v top fv size hdr fits e =
    (subst (Returns (λ s. Kept st s × Queued st p none s)) e (failed_lem v top fv size hdr)).0
keep_packet-Kept (some []) v top fv size hdr fits e = absurd (omega arith)
keep_packet-Kept {st} {st'} {p} {freeq'} (some (b ∷ bs)) v top fv size hdr fits e =
    (subst (Returns (λ s. Kept st s × Queued st p (some (b ∷ bs)) s)) e (
      packet_lem v top fv size hdr b bs fits
        (had_room (record st { freeq = freeq' }) p b bs v.inq_valid e))).0

-- The reading thread takes a buffer off the free queue.
pop-Complete :
    (n p : ℕ) {st : Ingress} {freeq : Mqueue}
    → Complete n none st
    → Popped st.freeq (ok (p, freeq))
    → Complete n (some p) (record st { freeq = freeq })
pop-Complete n p {st} {freeq} (v, own, whole) (top, fv, size, hdr) = (
  record {
    distinct = λ q. ground (arith, v.distinct q, ap (count q) top);
    sound = v.sound;
    spacious = λ q. omega (arith, v.spacious q, hdr);
    unused = v.unused;
    inq_valid = v.inq_valid;
    freeq_valid = fv;
    capacity =
        omega (arith, v.capacity, size, length-stack st.freeq, length-stack freeq, ap length top);
    long = v.long;
  },
  λ q. ground (arith, own q, ap (count q) top),
  size ∙ whole,
)

-- The free queue with the held buffer put back.
abbrev put_back : Ingress → ℕ → Ingress
put_back st p = record st {
  freeq = record st.freeq {
    queue = set st.freeq.queue st.freeq.depth p;
    depth = st.freeq.depth + 1;
  };
}

module _ (n p : ℕ) {st : Ingress} (h : Complete n (some p) st) where
  held_room : length (waiting st ++ stack st.freeq) < n
  held_room =
      length-lt n p (waiting st ++ stack st.freeq)
        (λ q. ground (arith, h.1 q, count-append q (waiting st) (stack st.freeq)))
        (λ q k. ground (arith, h.1 q, count-append q (waiting st) (stack st.freeq)))
        (ground (arith, h.1 p))
        (ground (arith, h.1 p, count-append p (waiting st) (stack st.freeq)))

  read-Complete :
      {st' : Ingress} (packet : Option (List ℕ))
      → FitsBuffer (st.mbufs p) packet
      → keep_packet st p packet ≡ ok st'
      → Complete n none st'
  read-Complete packet fits e =
      let v = h.0 in
      let room : length (waiting st) + st.freeq.depth < st.freeq.size = omega (
        arith,
        held_room,
        h.2,
        length-stack st.freeq,
        length-append (waiting st) (stack st.freeq),
      ) in
      let (pushed, pile, valid) = mqueue_push_lem st.mbufs p v.freeq_valid (omega (arith, room)) in
      let k =
        keep_packet-Kept {st = put_back st p} packet
          (record {
            distinct = λ q. ground (arith, h.1 q, ap (count q) pile);
            sound = v.sound;
            spacious = v.spacious;
            unused = v.unused;
            inq_valid = v.inq_valid;
            freeq_valid = valid;
            capacity = omega (arith, room);
            long = v.long;
          })
          pile v.freeq_valid refl refl fits e in
      (k.valid, λ q. ground (arith, k.own q, h.1 q, ap (count q) pile), k.size ∙ h.2)

Reads-Complete :
    (n : ℕ) {st st' : Ingress} {held held' : Option ℕ}
    → Complete n held st
    → Reads st held st' held'
    → Complete n held' st'
Reads-Complete n {st} h (pop {p} e) =
    pop-Complete n p h (subst (Popped st.freeq) e (mqueue_pop_lem h.0.freeq_valid))
Reads-Complete n h (keep {p} packet fits e) = read-Complete n p h packet fits e

module _ (c : Config) (sendmsg : List ℕ → Option ℕ) (fits : Fits c) (n : ℕ) {begin : Ingress}
    (first : ℕ) (complete : Complete n none begin) where
  write-Complete :
      {st : Ingress} (held : Option ℕ) (seq : ℕ)
      → Complete n held st
      → Returns (λ r. Complete n held r.2) (write_tfs_pkt c sendmsg st seq)
  write-Complete {st} held seq h =
      Returns-map (write_tfs_pkt c sendmsg st seq) (λ r k. Complete-Kept n held h k.0)
        (write_tfs_pkt_lem c sendmsg fits seq h.0)

  Reachable-Complete :
      {st : Ingress} {held : Option ℕ} {seq : ℕ}
      → Reachable c sendmsg begin first st held seq
      → Complete n held st
  Reachable-Complete start = complete
  Reachable-Complete (read r step) = Reads-Complete n (Reachable-Complete r) step
  Reachable-Complete (write {seq} {held} r e) =
      subst (Returns (λ s. Complete n held s.2)) e (write-Complete held seq (Reachable-Complete r))

  -- For a tunnel MTU that fits the arrays, any behaviour of sendmsg, and a valid state in which each
  -- of n buffers is in just one place, with reference count 0, and n is the size of the free queue: in
  -- every state that the two threads of the ingress side reach from it, where rounds of the sending
  -- thread fall before, after or between the pop and the push of a round of the reading thread, and
  -- where each read fails or returns a packet that fits the buffer and has at least 20 bytes, the state
  -- is valid, each of the n buffers is in just one place (the free queue, the interface queue, the
  -- left-over packet or the reading thread), and a round of write_tfs_pkt returns and leaves them so.
  pub no_buffer_lost :
      {st : Ingress} {held : Option ℕ} {seq : ℕ}
      → Reachable c sendmsg begin first st held seq
      → Complete n held st × Returns (λ r. Complete n held r.2) (write_tfs_pkt c sendmsg st seq)
  no_buffer_lost {held} {seq} r = let h = Reachable-Complete r in (h, write-Complete held seq h)
