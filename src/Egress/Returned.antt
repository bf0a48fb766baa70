-- ===== src/Egress/Returned.antt =====
-- write_intf_pkts of src/iptfs.c keeps the reference counts exact, and never waits while there is a
-- packet to write.
use iptfs.Prelude.{
  ℕ, ◌+◌, ◌-◌, ◌<◌, ◌≡◌, ◌≢◌, refl, subst, ap, ◌∙◌, sym, Bool-cases, inl, inr, List, [], ◌∷◌, map,
  map-ext_on, ◌++◌, count, count-append, set, get_or, length-set, length-append, ◌==◌, ok, Returns,
  Returns-value, Returns-map, arith, ==→ne, ==→eq, ne→==, ==_refl,
}
use iptfs.Mbuf.{store}
use iptfs.Mqueue.Stack.{below-push, below-pred, length-below}
use iptfs.Miov.{Miov, Miovq, Pool, emptied, miovq_pop, miovq_push, miov_reset, deref_all}
use iptfs.Miov.References.{refs-store}
use iptfs.Miov.Counts.{IsCounted-same, with, deref_all-Leaves}
use iptfs.Ingress.{spaces}
use iptfs.Egress.{Egress}
use iptfs.Egress.Pieces.{pile, content}
use iptfs.Egress.Output.{write_intf_pkt}
use iptfs.Egress.Counted.{places, IsPlaced, users, users-lt, Counted}
use iptfs.Egress.Rearranged.{
  Rearranged-middle, Rearranged-front, Rearranged-eq, Rearranged-sym, Rearranged-trans,
  Counted-moved,
}

-- The packet `p` without pieces.
abbrev pub with_emptied : Egress → ℕ → ℕ → Miov
with_emptied st p = store st.miovs p (emptied (st.miovs p))

module _ {t : ℕ} {hand : List ℕ} (st : Egress) (p : ℕ) (c : Counted t hand st)
    (once : count p (places hand st) ≡ 1) where
  left_over :
      (q : ℕ)
      → with (st.miovs p).mbufs (users t hand (record st { miovs = with_emptied st p })) q
        ≡ users t hand st q
  left_over q = ground (arith, refs-store st.miovs p (emptied (st.miovs p)) q (places hand st) once)

  IsPlaced-cleared :
      (pool : Pool) → IsPlaced hand (record st { pool = pool; miovs = with_emptied st p })
  IsPlaced-cleared pool = record {
    outq = c.placed.outq;
    outq_in = c.placed.outq_in;
    resets = c.placed.resets;
    storage = c.placed.storage;
    size = c.placed.size;
    distinct = c.placed.distinct;
    few = c.placed.few;
    empty = λ q k. elim (Bool-cases (q == p)) [
      | inl e ↦ rw e (refl, refl)
      | inr e ↦ rw e (c.placed.empty q k)
    ];
    fits = λ q. elim (Bool-cases (q == p)) [
      | inl e ↦ rw e (refl, omega arith, (c.placed.fits p).2, (c.placed.fits p).3)
      | inr e ↦ rw e (c.placed.fits q)
    ];
  }

  -- The references of a packet are given back, and nothing waits.
  pub released-Counted :
      Returns
        (λ pool.
          Counted t hand (record st { pool = pool; miovs = with_emptied st p })
          × (spaces pool.mbufs ≡ spaces st.mbufs)
          × ((pool.mbufs t).start ≡ (st.mbufs t).start)
          × ((pool.mbufs t).end ≡ (st.mbufs t).end))
        (deref_all st.pool (st.miovs p).mbufs)
  released-Counted =
      Returns-map (deref_all st.pool (st.miovs p).mbufs)
        (λ pool d. (
          record { placed = IsPlaced-cleared pool; counted = d.counted },
          d.same_spaces,
          (d.in_use t (ground arith)).0,
          (d.in_use t (ground arith)).1,
        ))
        (deref_all-Leaves (users t hand (record st { miovs = with_emptied st p }))
          (st.miovs p).mbufs (IsCounted-same left_over c.counted)
          (λ q. ground (arith, left_over q, users-lt t q c.placed)))

module _ {t p : ℕ} {hand : List ℕ} (st : Egress) where
  -- A packet leaves the finished ones, and comes to hand.
  taken-Counted :
      Counted t hand st
      → st.outq.depth ≢ 0
      → pile st.outq ≡ p ∷ pile (record st.outq { depth = st.outq.depth - 1 })
      → Counted t (p ∷ hand) (record st { outq = record st.outq { depth = st.outq.depth - 1 } })
  taken-Counted c some_left top =
      let outq' : Miovq = record st.outq { depth = st.outq.depth - 1 } in
      Counted-moved st.iovfreeq outq'
        (record {
          outq = record { plain = c.placed.outq.plain; storage = c.placed.outq.storage };
          outq_in = omega (arith, c.placed.outq_in);
          resets = c.placed.resets;
          storage = c.placed.storage;
          size = c.placed.size;
          empty = c.placed.empty;
        })
        (Rearranged-trans
          (Rearranged-sym (Rearranged-front hand p (pile st.iovfreeq ++ pile outq')))
          (Rearranged-trans
            (Rearranged-sym (Rearranged-middle hand (pile st.iovfreeq) p (pile outq')))
            (Rearranged-eq (ap (λ l. hand ++ (pile st.iovfreeq ++ l)) (sym top)))))
        c

  -- A packet at hand without pieces goes to the free ones.
  freed-Counted :
      Counted t (p ∷ hand) st
      → ((st.miovs p).mbufs ≡ []) × ((st.miovs p).len ≡ 0)
      → st.iovfreeq.depth < st.iovfreeq.size
      → Counted t hand (record st {
        iovfreeq = record st.iovfreeq {
          queue = set st.iovfreeq.queue st.iovfreeq.depth p;
          depth = st.iovfreeq.depth + 1;
        };
      })
  freed-Counted c clear room =
      let free' : Miovq = record st.iovfreeq {
        queue = set st.iovfreeq.queue st.iovfreeq.depth p;
        depth = st.iovfreeq.depth + 1;
      } in
      let top : pile free' ≡ p ∷ pile st.iovfreeq =
        below-push st.iovfreeq.queue st.iovfreeq.depth p (omega (arith, room, c.placed.storage)) in
      Counted-moved free' st.outq
        (record {
          outq = c.placed.outq;
          outq_in = c.placed.outq_in;
          resets = c.placed.resets;
          storage = length-set st.iovfreeq.queue st.iovfreeq.depth p ∙ c.placed.storage;
          size = c.placed.size;
          empty = λ q k. elim (Bool-cases (q == p)) [
            | inl e ↦ rw (==→eq q p e) clear
            | inr e ↦ c.placed.empty q (ground (arith, ap (count q) top, k, e))
          ];
        })
        (Rearranged-trans (Rearranged-eq (ap (λ l. hand ++ (l ++ pile st.outq)) top))
          (Rearranged-front hand p (pile st.iovfreeq ++ pile st.outq)))
        c

  -- The packets at hand leave room for theirs among the free ones.
  has_space : Counted t (p ∷ hand) st → st.iovfreeq.depth < st.iovfreeq.size
  has_space c = omega (
    arith,
    c.placed.few,
    c.placed.size,
    length-append hand (pile st.iovfreeq ++ pile st.outq),
    length-append (pile st.iovfreeq) (pile st.outq),
    length-below st.iovfreeq.queue st.iovfreeq.depth,
  )

-- What miovq_push onto the free packets returns, put into the state.
abbrev Freed : ℕ → ℕ → List ℕ → Egress → Pool × (ℕ → Miov) × Miovq → Type 0
Freed t p hand st (pool', miovs', iovfreeq') =
    Counted t hand (record st { pool = pool'; miovs = miovs'; iovfreeq = iovfreeq' })
    × (spaces pool'.mbufs ≡ spaces st.mbufs)
    × ((q : ℕ) → q ≢ p → miovs' q ≡ st.miovs q)

-- A packet at hand goes to the free ones.
push_free-Counted :
    {t p : ℕ} {hand : List ℕ} (st : Egress)
    → Counted t (p ∷ hand) st
    → Returns (Freed t p hand st) (miovq_push st.pool st.miovs st.iovfreeq p)
unfolding miovq_push miov_reset
push_free-Counted {t} {p} {hand} st c =
    let once : count p (places (p ∷ hand) st) ≡ 1 = ground (arith, c.placed.distinct p) in
    let (pool', released, (c1, same, _, _)) =
      Returns-value (deref_all st.pool (st.miovs p).mbufs) (released-Counted st p c once) in
    let room = has_space st c in
    let iovfreeq' : Miovq = record st.iovfreeq {
      queue = set st.iovfreeq.queue st.iovfreeq.depth p;
      depth = st.iovfreeq.depth + 1;
    } in
    let pushed : miovq_push st.pool st.miovs st.iovfreeq p
        ≡ ok (pool', with_emptied st p, iovfreeq') =
      rw (c.placed.resets, released, ne→== st.iovfreeq.depth st.iovfreeq.size (omega arith)) in
    rw pushed (
      freed-Counted (record st { pool = pool'; miovs = with_emptied st p }) c1
          (rw (==_refl p) (refl, refl)) room,
      same,
      λ q ne. rw (ne→== q p ne),
    )

-- The packet `p` was written, and the others are as they were.
pub record Passed (t : ℕ) (hand : List ℕ) (st : Egress) (bytes : List ℕ) (st' : Egress)
    : Type 0 where
  pub counted : Counted t hand st'
  pub outputs : map (content st) (pile st.outq) ≡ bytes ∷ map (content st') (pile st'.outq)
  pub depth : st.outq.depth ≡ st'.outq.depth + 1

-- In a state with exact reference counts and a finished packet, write_intf_pkt writes that packet and
-- leaves the counts exact.
pub write_intf_pkt-Counted :
    {t : ℕ} {hand : List ℕ} (st : Egress)
    → Counted t hand st
    → st.outq.depth ≢ 0
    → Returns (λ (bytes, st'). Passed t hand st bytes st') (write_intf_pkt st)
unfolding write_intf_pkt miovq_pop
write_intf_pkt-Counted {t} {hand} st c some_left =
    let p = get_or st.outq.queue (st.outq.depth - 1) 0 in
    let outq' : Miovq = record st.outq { depth = st.outq.depth - 1 } in
    let top = below-pred st.outq.queue st.outq.depth some_left in
    let st1 = record st { outq = outq' } in
    let c1 = taken-Counted st c some_left top in
    let ((pool', miovs', iovfreeq'), pushed, (c2, same, others)) =
      Returns-value (miovq_push st.pool st.miovs st.iovfreeq p) (push_free-Counted st1 c1) in
    let st' : Egress = record {
      pool = pool';
      miovs = miovs';
      iovfreeq = iovfreeq';
      outq = outq';
    } in
    let same_contents : (q : ℕ) → 0 < count q (pile outq') → content st q ≡ content st' q = λ q k.
      let ne : q ≢ p = ground (
        arith,
        c1.placed.distinct q,
        count-append q hand (pile st.iovfreeq ++ pile outq'),
        count-append q (pile st.iovfreeq) (pile outq'),
        k,
      ) in
      rw (others q ne, same) in
    rw (ne→== st.outq.depth 0 some_left, pushed)
      (record {
        counted = c2;
        outputs =
            ap (map (content st)) top
            ∙ ap (λ l. content st p ∷ l)
                (map-ext_on (content st) (content st') (pile outq') same_contents);
        depth = omega arith;
      })

-- A round that ends has written a packet.
pub write_intf_pkt-Passed :
    {t : ℕ} {hand : List ℕ} (st : Egress) {bytes : List ℕ} {st' : Egress}
    → Counted t hand st
    → write_intf_pkt st ≡ ok (bytes, st')
    → Passed t hand st bytes st'
unfolding write_intf_pkt miovq_pop
write_intf_pkt-Passed {t} {hand} st c e = elim (Bool-cases (st.outq.depth == 0)) [
  | inl none_left ↦ absurd (ground (arith, none_left, e))
  | inr some_left ↦
      subst (Returns (λ (bytes, st'). Passed t hand st bytes st')) e
        (write_intf_pkt-Counted st c (==→ne st.outq.depth 0 some_left))
]
