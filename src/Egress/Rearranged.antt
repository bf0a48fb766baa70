-- ===== src/Egress/Rearranged.antt =====
-- Packets that go from one queue of src/iptfs.c to another keep the reference counts exact.
use iptfs.Prelude.{
  ℕ, ◌+◌, ◌-◌, ◌≤◌, ◌<◌, ◌≡◌, ◌≢◌, ap, ◌∙◌, sym, true, List, [], ◌∷◌, ◌++◌, length, count, set,
  get_or, count-append, length-append, length-set, arith,
}
use iptfs.Mqueue.Stack.{below-push, below-pred}
use iptfs.Miov.{Miov, Miovq}
use iptfs.Miov.References.{refs, refs-append}
use iptfs.Miov.Counts.{buffers, IsCounted-same}
use iptfs.Egress.{Egress}
use iptfs.Egress.Pieces.{pile, IsPlain}
use iptfs.Egress.Counted.{places, held, Counted}

-- The same packets in another order.
pub record Rearranged (xs ys : List ℕ) : Type 0 where
  pub counts : (q : ℕ) → count q xs ≡ count q ys
  pub lengths : length xs ≡ length ys
  pub references : (miovs : ℕ → Miov) (q : ℕ) → refs miovs q xs ≡ refs miovs q ys

pub Rearranged-eq : {xs ys : List ℕ} → xs ≡ ys → Rearranged xs ys
Rearranged-eq e = record {
  counts = λ q. ap (count q) e;
  lengths = ap length e;
  references = λ miovs q. ap (refs miovs q) e;
}

pub Rearranged-middle :
    (a front : List ℕ) (p : ℕ) (back : List ℕ)
    → Rearranged (a ++ (front ++ p ∷ back)) (a ++ (p ∷ front ++ back))
Rearranged-middle a front p back = record {
  counts = λ q. ground (
    arith,
    count-append q a (front ++ p ∷ back),
    count-append q a (p ∷ front ++ back),
    count-append q front (p ∷ back),
    count-append q front back,
  );
  lengths = omega (
    arith,
    length-append a (front ++ p ∷ back),
    length-append a (p ∷ front ++ back),
    length-append front (p ∷ back),
    length-append front back,
  );
  references = λ miovs q. omega (
    arith,
    refs-append miovs q a (front ++ p ∷ back),
    refs-append miovs q a (p ∷ front ++ back),
    refs-append miovs q front (p ∷ back),
    refs-append miovs q front back,
  );
}

pub Rearranged-front :
    (front : List ℕ) (p : ℕ) (back : List ℕ) → Rearranged (front ++ p ∷ back) (p ∷ front ++ back)
Rearranged-front front p back = Rearranged-middle [] front p back

pub Rearranged-sym : {xs ys : List ℕ} → Rearranged xs ys → Rearranged ys xs
Rearranged-sym r = record {
  counts = λ q. sym (r.counts q);
  lengths = sym r.lengths;
  references = λ miovs q. sym (r.references miovs q);
}

pub Rearranged-trans : {xs ys zs : List ℕ} → Rearranged xs ys → Rearranged ys zs → Rearranged xs zs
Rearranged-trans r s = record {
  counts = λ q. r.counts q ∙ s.counts q;
  lengths = r.lengths ∙ s.lengths;
  references = λ miovs q. r.references miovs q ∙ s.references miovs q;
}

-- What IsPlaced says of the two queues.
pub record AreQueues (st : Egress) (free done : Miovq) : Type 0 where
  pub outq : IsPlain done
  pub outq_in : done.depth ≤ done.size
  pub resets : free.has_freeq ≡ true
  pub storage : length free.queue ≡ free.size
  pub size : free.size ≡ buffers
  pub empty : (q : ℕ) → 0 < count q (pile free) → ((st.miovs q).mbufs ≡ []) × ((st.miovs q).len ≡ 0)

-- The packets go elsewhere, each of them just once.
pub Counted-moved :
    {t : ℕ} {hand hand' : List ℕ} {st : Egress} (iovfreeq outq : Miovq)
    → AreQueues st iovfreeq outq
    → Rearranged (hand' ++ (pile iovfreeq ++ pile outq)) (places hand st)
    → Counted t hand st
    → Counted t hand' (record st { iovfreeq = iovfreeq; outq = outq })
Counted-moved {t} {hand} {hand'} {st} iovfreeq outq q r c = record {
  placed = record {
    outq = q.outq;
    outq_in = q.outq_in;
    resets = q.resets;
    storage = q.storage;
    size = q.size;
    distinct = λ p. r.counts p ∙ c.placed.distinct p;
    few = omega (arith, r.lengths, c.placed.few);
    empty = q.empty;
    fits = c.placed.fits;
  };
  counted = IsCounted-same (λ p. ap (λ n. n + held t p) (r.references st.miovs p)) c.counted;
}

-- A packet leaves the free ones, and comes to hand.
pub popped-Counted :
    {t : ℕ} {st : Egress}
    → Counted t [] st
    → st.iovfreeq.depth ≢ 0
    → let p = get_or st.iovfreeq.queue (st.iovfreeq.depth - 1) 0 in
      Counted t
        (p ∷ [])
        (record st { iovfreeq = record st.iovfreeq { depth = st.iovfreeq.depth - 1 } })
popped-Counted {t} {st} c some_left =
    let top = below-pred st.iovfreeq.queue st.iovfreeq.depth some_left in
    Counted-moved (record st.iovfreeq { depth = st.iovfreeq.depth - 1 }) st.outq
      (record {
        outq = c.placed.outq;
        outq_in = c.placed.outq_in;
        resets = c.placed.resets;
        storage = c.placed.storage;
        size = c.placed.size;
        empty = λ q k. c.placed.empty q (ground (arith, ap (count q) top, k));
      })
      (Rearranged-eq (ap (λ l. l ++ pile st.outq) (sym top))) c

pub pushed-Counted :
    {t p : ℕ} {st : Egress}
    → Counted t (p ∷ []) st
    → st.outq.depth ≢ st.outq.size
    → Counted t [] (record st {
      outq = record st.outq {
        queue = set st.outq.queue st.outq.depth p;
        depth = st.outq.depth + 1;
      };
    })
pushed-Counted {t} {p} {st} c room =
    let outq : Miovq = record st.outq {
      queue = set st.outq.queue st.outq.depth p;
      depth = st.outq.depth + 1;
    } in
    let top : pile outq ≡ p ∷ pile st.outq =
      below-push st.outq.queue st.outq.depth p
        (omega (arith, c.placed.outq.storage, c.placed.outq_in, room)) in
    let moved = Rearranged-middle [] (pile st.iovfreeq) p (pile st.outq) in
    Counted-moved st.iovfreeq outq
      (record {
        outq = record {
          plain = c.placed.outq.plain;
          storage = length-set st.outq.queue st.outq.depth p ∙ c.placed.outq.storage;
        };
        outq_in = omega (arith, c.placed.outq_in, room);
        resets = c.placed.resets;
        storage = c.placed.storage;
        size = c.placed.size;
        empty = c.placed.empty;
      })
      (rw top moved) c
