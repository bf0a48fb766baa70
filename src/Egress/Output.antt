-- ===== src/Egress/Output.antt =====
-- write_intf_pkts of src/iptfs.c: one round of the loop of the thread that writes packets to the
-- interface. What `writev` returns only feeds log lines.
use iptfs.Prelude.{
  ℕ, ◌+◌, ◌-◌, ◌<◌, ◌≡◌, ◌≢◌, refl, ap, ◌∙◌, sym, true, Bool-cases, inl, inr, List, [], ◌∷◌, ◌++◌,
  length, count, count-append, set, Option, ◌==◌, Outcome, ok, ◌>>=◌, Returns, Returns-value, arith,
  ==_refl, ne→==, ==→eq, ==→ne,
}
use iptfs.Iovec.{gather}
use iptfs.Mbuf.{store}
use iptfs.Mqueue.Stack.{ptrs, below, below-push, below-pred}
use iptfs.Miov.{Miovq, Pool, miovq_pop, miovq_push, miov_reset, emptied, deref_all}
use iptfs.Miov.Deref.{CanDeref, Dereffed, deref_all_lem}
use iptfs.Ingress.{spaces}
use iptfs.Egress.{Egress}
use iptfs.Egress.Pieces.{pile, content}
use iptfs.Egress.Carry.{Fresh, all_miovs, IsValid}

-- The bytes that `writev` is given, and the state after the packet has gone to the free ones.
unfoldable pub write_intf_pkt : Egress → Outcome (List ℕ × Egress)
write_intf_pkt st = do
  (p, outq') ← miovq_pop st.outq
  let bytes = gather (spaces st.mbufs) [] (st.miovs p).iov
  (pool', miovs', freeq') ← miovq_push st.pool st.miovs st.iovfreeq p
  ok (bytes, record st { pool = pool'; miovs = miovs'; iovfreeq = freeq'; outq = outq' })

-- The packet `p` has been written and is free again.
pub record Written (st : Egress) (m : Option ℕ) (p : ℕ) (bytes : List ℕ) (st' : Egress)
    : Type 0 where
  pub sent : bytes ≡ content st p
  pub valid : IsValid st' m
  pub outq : pile st.outq ≡ p ∷ pile st'.outq
  pub iovfreeq : pile st'.iovfreeq ≡ p ∷ pile st.iovfreeq
  pub clear : Fresh (st'.miovs p)
  pub others : (q : ℕ) → q ≢ p → content st' q ≡ content st q
  pub same : (q : ℕ) → q ≢ p → st'.miovs q ≡ st.miovs q
  pub pool : Dereffed st.pool (st.miovs p).mbufs st'.pool

-- The queue of free packets has its own free queue of buffers, and room for one more.
pub record HasSpace (mq : Miovq) : Type 0 where
  pub resets : mq.has_freeq ≡ true
  pub storage : length mq.queue ≡ mq.size
  pub room : mq.depth < mq.size

count_moved : (p q : ℕ) (a f o : List ℕ) → count q (a ++ (p ∷ f ++ o)) ≡ count q (a ++ (f ++ p ∷ o))
count_moved p q a f o = ground (
  arith,
  count-append q a (p ∷ f ++ o),
  count-append q a (f ++ p ∷ o),
  count-append q f o,
  count-append q f (p ∷ o),
)

cons-inj : {x y : ℕ} {xs ys : List ℕ} → x ∷ xs ≡ y ∷ ys → (x ≡ y) × (xs ≡ ys)
cons-inj e = (cc, cc)

module _ (st : Egress) {m : Option ℕ} {p : ℕ} {ps : List ℕ} (v : IsValid st m)
    (finished : pile st.outq ≡ p ∷ ps) (space : HasSpace st.iovfreeq)
    (some_iov : 0 < (st.miovs p).maxiov) (refs : CanDeref st.pool (st.miovs p).mbufs) where
  popped :
      (miovq_pop st.outq ≡ ok (p, record st.outq { depth = st.outq.depth - 1 }))
      × (pile (record st.outq { depth = st.outq.depth - 1 }) ≡ ps)
  unfolding miovq_pop
  popped = elim (Bool-cases (st.outq.depth == 0)) [
    | inl e ↦ absurd (
        omega (
          arith,
          ap length finished,
          ap length (ap (below st.outq.queue) (==→eq st.outq.depth 0 e)),
        ))
    | inr e ↦
        (let split =
            sym (below-pred st.outq.queue st.outq.depth (==→ne st.outq.depth 0 e)) ∙ finished in
          let (top, others) = cons-inj split in (rw (e, top), others))
  ]

  pushed_lem :
      (pool' : Pool)
      → deref_all st.pool (st.miovs p).mbufs ≡ ok pool'
      → miovq_push st.pool st.miovs st.iovfreeq p
        ≡ ok (
          pool',
          store st.miovs p (emptied (st.miovs p)),
          record st.iovfreeq {
            queue = set st.iovfreeq.queue st.iovfreeq.depth p;
            depth = st.iovfreeq.depth + 1;
          },
        )
  unfolding miovq_push miov_reset
  pushed_lem pool' e =
      rw (space.resets, e, ne→== st.iovfreeq.depth st.iovfreeq.size (omega (arith, space.room)))

  top :
      pile (record st.iovfreeq {
        queue = set st.iovfreeq.queue st.iovfreeq.depth p;
        depth = st.iovfreeq.depth + 1;
      })
      ≡ p ∷ pile st.iovfreeq
  top = below-push st.iovfreeq.queue st.iovfreeq.depth p (omega (arith, space.storage, space.room))

  IsValid-written :
      (pool' : Pool)
      → IsValid
          (record {
            pool = pool';
            miovs = store st.miovs p (emptied (st.miovs p));
            iovfreeq = record st.iovfreeq {
              queue = set st.iovfreeq.queue st.iovfreeq.depth p;
              depth = st.iovfreeq.depth + 1;
            };
            outq = record st.outq { depth = st.outq.depth - 1 };
          })
          m
  IsValid-written pool' = record {
    outq = record { plain = v.outq.plain; storage = v.outq.storage };
    distinct = λ q. omega (arith, own q, v.distinct q);
    fresh = λ q k. elim (Bool-cases (q == p)) [
      | inl e ↦ rw e (refl, refl, some_iov)
      | inr e ↦ rw e (v.fresh q (ground (arith, ap (count q) top, k, ==→ne q p e)))
    ];
  }
    where
      free : List ℕ
      free = pile (record st.iovfreeq {
        queue = set st.iovfreeq.queue st.iovfreeq.depth p;
        depth = st.iovfreeq.depth + 1;
      })

      own :
          (q : ℕ)
          → count q (ptrs m ++ (free ++ pile (record st.outq { depth = st.outq.depth - 1 })))
            ≡ count q (all_miovs st m)
      own q =
          ap (λ l. count q (ptrs m ++ (free ++ l))) popped.1
          ∙ ap (λ l. count q (ptrs m ++ (l ++ ps))) top
          ∙ count_moved p q (ptrs m) (pile st.iovfreeq) ps
          ∙ ap (λ l. count q (ptrs m ++ (pile st.iovfreeq ++ l))) (sym finished)

  -- From a valid state with a packet on the queue of finished ones, room on the queue of free ones,
  -- room on the free queue of buffers, and the references of the packet's pieces counted in their
  -- buffers, a round of write_intf_pkts does not block: it writes the bytes of the packet that was
  -- finished last. That packet is free and without pieces, the others are as they were, the state
  -- stays valid, and the references of the packet are given back.
  pub write_intf_pkt_lem : Returns (λ (bytes, st'). Written st m p bytes st') (write_intf_pkt st)
  unfolding write_intf_pkt
  write_intf_pkt_lem =
      let (pool', freed, d) =
        Returns-value (deref_all st.pool (st.miovs p).mbufs)
          (deref_all_lem (st.miovs p).mbufs st.pool refs) in
      rw (popped.0, pushed_lem pool' freed)
        (record {
          sent = refl;
          valid = IsValid-written pool';
          outq = finished ∙ ap (λ l. p ∷ l) (sym popped.1);
          iovfreeq = top;
          clear = rw (==_refl p) (refl, refl, some_iov);
          others = λ q ne. rw (ne→== q p ne) (ap (λ s. gather s [] (st.miovs q).iov) d.same_spaces);
          same = λ q ne. rw (ne→== q p ne);
          pool = d;
        })
