-- ===== src/Tunnel/Receiving/Fresh.antt =====
-- What tfs_tunnel_egress of src/iptfs.c sets up: every packet and every buffer but one is free.
use iptfs.Prelude.{
  ℕ, ◌+◌, ◌/◌, ◌≤◌, ◌<◌, ◌≡◌, ◌≢◌, refl, ap, ◌∙◌, sym, true, ◌&&◌, [], ◌∷◌, append-nil, length,
  count, length-replicate, ltb, leb, if◌then◌else◌, ok, stop, Returns, Returns-value, ◌>>=◌, arith,
  ne→==,
}
use native.Mathlib.Nat.{div-le_self}
use iptfs.Mbuf.{Memory}
use iptfs.Mqueue.{Mqueue, mqueue_pop}
use iptfs.Ack.{Control}
use iptfs.Mqueue.Stack
use iptfs.Mqueue.Stack.{ptrs, stack, Popped, mqueue_pop_lem}
use iptfs.Mqueue.Init.{mqueue_new_freeq_lem}
use iptfs.Miov.{Miov, miovq_new, fill_miovq, miovq_new_freeq}
use iptfs.Miov.References.{refs, refs-empty}
use iptfs.Miov.Counts.{buffers, IsCounted}
use iptfs.Ingress.{maxbuf, hdrspace}
use iptfs.Egress.{Egress}
use iptfs.Egress.Pieces.{pile}
use iptfs.Egress.Setup.{outerqsz, new_egress, fill_miovq-Fills}
use iptfs.Egress.Counted.{places, IsPlaced, Counted}
use iptfs.Receive.Counting.{AllCounted}
use iptfs.Tunnel.Receiving.{Setup, with_first, started, new_receiver, tunnel_egress}

-- Memory in which no buffer has a reference and no packet has pieces, which nothing in the code ensures,
-- and a tunnel MTU other than 0.
pub record IsFresh (s : Setup) : Type 0 where
  pub mtu : s.tfsmtu ≢ 0
  pub unused : (p : ℕ) → (s.fresh p).refcnt ≡ 0
  pub no_pieces :
      (p : ℕ)
      → ((s.fresh_miovs p).iov ≡ []) × ((s.fresh_miovs p).mbufs ≡ []) × ((s.fresh_miovs p).len ≡ 0)

-- All packets are free, and all buffers.
record IsNew (st : Egress) : Type 0 where
  placed : IsPlaced [] st
  counted : IsCounted (λ q. 0) st.pool
  clear : (p : ℕ) → (st.miovs p).mbufs ≡ []

few_pieces : (n : ℕ) → maxbuf / n + 2 ≤ 10000
few_pieces n = omega (arith, div-le_self maxbuf n)

some_pieces : (n : ℕ) → 0 < n + 2
some_pieces n = omega arith

below_256 :
    (q : ℕ)
    → 0 + (if leb 0 q && ltb q (0 + buffers) then 1 else 0) ≡ (if ltb q buffers then 1 else 0)
below_256 q = ground arith

new_egress-IsNew :
    (tfsmtu : ℕ) (fresh : Memory) (fresh_miovs : ℕ → Miov)
    → tfsmtu ≢ 0
    → ((p : ℕ) → (fresh p).refcnt ≡ 0)
    → ((p : ℕ)
        → ((fresh_miovs p).iov ≡ []) × ((fresh_miovs p).mbufs ≡ []) × ((fresh_miovs p).len ≡ 0))
    → Returns (λ r. IsNew r.0) (new_egress tfsmtu fresh fresh_miovs)
unfolding new_egress miovq_new_freeq miovq_new
new_egress-IsNew tfsmtu fresh fresh_miovs nonzero unused empty =
    let f =
      fill_miovq-Fills outerqsz (record (miovq_new outerqsz) { has_freeq = true })
        (omega (arith, length-replicate {A = ℕ} outerqsz 0)) in
    let free = pile (fill_miovq outerqsz 0 (record (miovq_new outerqsz) { has_freeq = true })) in
    let (valid, depth, size, hdr, own, mems) =
      mqueue_new_freeq_lem outerqsz maxbuf hdrspace fresh in
    rw (ne→== tfsmtu 0 nonzero) (record {
      placed = record {
        outq = record { plain = refl; storage = length-replicate {A = ℕ} outerqsz 0 };
        outq_in = omega arith;
        resets = f.has_freeq;
        storage = f.storage ∙ length-replicate {A = ℕ} outerqsz 0 ∙ sym f.size;
        size = f.size;
        distinct = λ q. ap (count q) (append-nil free) ∙ (f.own q ∙ below_256 q);
        few = omega (arith, ap length (append-nil free), f.supply);
        empty = λ q k. ((empty q).1, (empty q).2);
        fits = λ p. (
          ap length (empty p).1 ∙ sym (ap length (empty p).0),
          omega (arith, ap length (empty p).0),
          few_pieces tfsmtu,
          some_pieces (maxbuf / tfsmtu),
        );
      };
      counted = record {
        valid = valid;
        size = size;
        refcnts = λ q. (mems q).4 ∙ unused q;
        free = λ q. ground (arith, own q);
        inside = λ q k. absurd (omega (arith, k));
      };
      clear = λ p. (empty p).1;
    })

-- All packets are free and without pieces, and one buffer has come off the free queue.
first-Counted :
    {st : Egress} {p : ℕ} {freeq' : Mqueue}
    → IsNew st
    → stack st.pool.freeq ≡ p ∷ stack freeq'
    → Stack.IsValid freeq'
    → freeq'.size ≡ st.pool.freeq.size
    → Counted p [] (with_first st p freeq')
first-Counted {st} {p} {freeq'} n top valid size =
    let none_held : (q : ℕ) → refs st.miovs q (places [] st) ≡ 0 =
      λ q. refs-empty st.miovs q (places [] st) (λ x k. n.clear x) in
    record {
      placed = record {
        outq = n.placed.outq;
        outq_in = n.placed.outq_in;
        resets = n.placed.resets;
        storage = n.placed.storage;
        size = n.placed.size;
        distinct = n.placed.distinct;
        few = n.placed.few;
        empty = n.placed.empty;
        fits = n.placed.fits;
      };
      counted = record {
        valid = valid;
        size = size ∙ n.counted.size;
        refcnts = λ q. ground (arith, none_held q, n.counted.refcnts q);
        free = λ q. ground (arith, none_held q, n.counted.free q, ap (count q) top);
        inside = λ q k. ground (arith, none_held q, n.counted.free q, ap (count q) top, k);
      };
    }

-- The first buffer is popped off the free queue.
first_buffer :
    {st : Egress} (s : Setup) (ctl : Control)
    → IsNew st
    → Returns AllCounted (new_receiver s.oneonly s.congest s.now s.unset ctl st)
unfolding new_receiver
first_buffer {st} s ctl n =
    elim (mqueue_pop st.pool.freeq)
        as (λ o.
          Popped st.pool.freeq o
          → Returns AllCounted (
              o >>= λ (p, freeq').
              ok (started s.oneonly s.congest s.now s.unset ctl st p freeq'))) [
                | stop e ↦ λ (_, none_left).
                    absurd (ground (arith, n.counted.free 0, ap (count 0) none_left))
                | ok (p, freeq') ↦ λ (top, valid, size, _). first-Counted n top valid size
              ]
      (mqueue_pop_lem n.counted.valid)

pub tunnel_egress-Counted : (s : Setup) → IsFresh s → Returns AllCounted (tunnel_egress s)
unfolding tunnel_egress
tunnel_egress-Counted s h =
    let ((st, avgpps, avgdrops), made, n) =
      Returns-value (new_egress s.tfsmtu s.fresh s.fresh_miovs)
        (new_egress-IsNew s.tfsmtu s.fresh s.fresh_miovs h.mtu h.unused h.no_pieces) in
    rw made (first_buffer s (record { pps = s.pps; avgpps = avgpps; avgdrops = avgdrops }) n)
