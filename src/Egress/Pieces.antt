-- ===== src/Egress/Pieces.antt =====
-- The bytes of the packets that add_to_inner_packet of src/iptfs.c puts together, and what adding a
-- piece and finishing a packet do to them.
use mathlib.Core.Path.{fun_ext}
use iptfs.Prelude.{
  ℕ, ◌+◌, ◌-◌, ◌<◌, ◌≡◌, ◌≢◌, refl, ap, ◌∙◌, sym, false, Bool-cases, inl, inr, List, [], ◌∷◌, ◌++◌,
  length, set, get_or, length-set, append-nil, Option, none, some, ◌==◌, ok, arith, ==_refl, lt→ltb,
  ne→==, ==→eq, ==→ne,
}
use iptfs.Iovec.{in_mbuf, slice, gather}
use iptfs.Iovec.Laws.{gather-append}
use iptfs.Mbuf.{store, incref}
use iptfs.Mqueue.Stack.{ptrs, below, below-push, below-pred}
use iptfs.Miov.{Miovq, niov, miovq_pop, miovq_push, miov_addmbuf}
use iptfs.Ingress.{spaces}
use iptfs.Egress.{Egress, set_start, set_left, take_piece, finish_packet, inner_packet}

-- The packets in a queue, the last one pushed first.
abbrev pub pile : Miovq → List ℕ
pile mq = below mq.queue mq.depth

-- The bytes of a packet put together from pieces.
abbrev pub content : Egress → ℕ → List ℕ
content st p = gather (spaces st.mbufs) [] (st.miovs p).iov

-- The state after `take_piece`.
abbrev pub pieced : Egress → ℕ → ℕ → ℕ → Egress
pieced st t m n =
    let v = st.mbufs t in
    let mi = st.miovs m in
    set_start
      (record st {
        pool = record st.pool { mbufs = store st.mbufs t (incref v) };
        miovs = store st.miovs m (record mi {
          iov = mi.iov ++ record { iov_base = in_mbuf t v.start; iov_len = n } ∷ [];
          mbufs = mi.mbufs ++ t ∷ [];
          len = mi.len + n;
        });
      })
      t (v.start + n)

module _ (st : Egress) (t m n : ℕ) where
  pub take_piece_lem :
      niov (st.miovs m) < (st.miovs m).maxiov → take_piece st t m n ≡ ok (pieced st t m n)
  unfolding take_piece miov_addmbuf
  take_piece_lem room = rw (lt→ltb (niov (st.miovs m)) (st.miovs m).maxiov room)

  pub spaces-pieced : spaces (pieced st t m n).mbufs ≡ spaces st.mbufs
  spaces-pieced =
      fun_ext λ q. elim (Bool-cases (q == t)) [ inl e ↦ ground arith | inr e ↦ ground arith ]

  pub content-pieced :
      content (pieced st t m n) m ≡ content st m ++ slice (st.mbufs t).start n (st.mbufs t).space
  content-pieced =
      rw (spaces-pieced, ==_refl m)
        (gather-append [] (spaces st.mbufs) (st.miovs m).iov _
          ∙ ap (λ l. content st m ++ l) (unfold gather in append-nil _))

  pub content-pieced_ne : (q : ℕ) → q ≢ m → content (pieced st t m n) q ≡ content st q
  content-pieced_ne q ne = rw (spaces-pieced, ne→== q m ne)

-- Setting `left` changes no bytes.
pub content-set_left : (st : Egress) (m n q : ℕ) → content (set_left st m n) q ≡ content st q
content-set_left st m n q = elim (Bool-cases (q == m)) [
  | inl e ↦ rw (e, ==→eq q m e)
  | inr e ↦ rw e
]

-- The state after `finish_packet`.
abbrev pub finished : Egress → ℕ → ℕ → Egress
finished st t m =
    let st' = set_left (pieced st t m (st.miovs m).left) m 0 in
    record st' {
      outq = record st.outq {
        queue = set st.outq.queue st.outq.depth m;
        depth = st.outq.depth + 1;
      };
    }

-- A queue without a free list of its own, with the room that its size says.
pub record IsPlain (mq : Miovq) : Type 0 where
  pub plain : mq.has_freeq ≡ false
  pub storage : length mq.queue ≡ mq.size

module _ (st : Egress) (t m : ℕ) (q : IsPlain st.outq) (free : st.outq.depth < st.outq.size) where
  pub finish_packet_lem :
      niov (st.miovs m) < (st.miovs m).maxiov → finish_packet st t m ≡ ok (finished st t m)
  unfolding finish_packet miovq_push
  finish_packet_lem room = rw (
    take_piece_lem st t m (st.miovs m).left room,
    ==_refl m,
    q.plain,
    ne→== st.outq.depth st.outq.size (omega arith),
  )

  pub pile-finished : pile (finished st t m).outq ≡ m ∷ pile st.outq
  pile-finished = below-push st.outq.queue st.outq.depth m (omega (arith, q.storage))

  pub IsPlain-finished : IsPlain (finished st t m).outq
  IsPlain-finished = record {
    plain = q.plain;
    storage = length-set st.outq.queue st.outq.depth m ∙ q.storage;
  }

-- "Get a new inner packet buf if we have none": the packet at hand, or the top of the free ones.
pub inner_packet_lem :
    (st : Egress) (m : Option ℕ)
    → ptrs m ++ pile st.iovfreeq ≢ []
    → (p : ℕ) × (fq : Miovq) × (inner_packet st m ≡ ok (p, record st { iovfreeq = fq }))
      × (p ∷ pile fq ≡ ptrs m ++ pile st.iovfreeq)
unfolding inner_packet miovq_pop
inner_packet_lem st (some p) h = (p, st.iovfreeq, refl, refl)
inner_packet_lem st none h = elim (Bool-cases (st.iovfreeq.depth == 0)) [
  | inl e ↦ absurd (h (rw (==→eq st.iovfreeq.depth 0 e)))
  | inr e ↦ (
    get_or st.iovfreeq.queue (st.iovfreeq.depth - 1) 0,
    record st.iovfreeq { depth = st.iovfreeq.depth - 1 },
    rw e,
    sym (below-pred st.iovfreeq.queue st.iovfreeq.depth (==→ne st.iovfreeq.depth 0 e)),
  )
]
