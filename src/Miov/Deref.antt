-- ===== src/Miov/Deref.antt =====
-- mbuf_deref and miov_reset of src/mbuf.c: the references of a packet to its buffers are given back,
-- and the buffers that nobody else refers to go onto the free queue.
use mathlib.Core.Path.{fun_ext}
use iptfs.Prelude.{
  ℕ, ◌+◌, ◌≤◌, ◌<◌, ◌≡◌, refl, ap, ◌∙◌, ◌&&◌, not, Bool-cases, inl, inr, List, [], ◌∷◌, length,
  count, ◌==◌, if◌then◌else◌, u32, Returns, Returns-map, Returns-value, arith,
}
use iptfs.Mbuf.{Mbuf, Memory, store, decref}
use iptfs.Mqueue.Stack.{IsValid, stack}
use iptfs.Ingress.{spaces}
use iptfs.Ingress.Release.{cleared, mqueue_push_reset}
use iptfs.Miov.{Pool, mbuf_deref, deref_all}

-- The references to the buffers of `ms` can be given back.
pub record CanDeref (pool : Pool) (ms : List ℕ) : Type 0 where
  pub valid : IsValid pool.freeq
  pub room : pool.freeq.depth + length ms ≤ pool.freeq.size
  pub referred : (q : ℕ) → count q ms ≤ (pool.mbufs q).refcnt
  pub small : (q : ℕ) → 0 < count q ms → (pool.mbufs q).refcnt < u32

-- The references to the buffers of `ms` have been given back: a buffer whose last reference went is on
-- the free queue.
pub record Dereffed (pool : Pool) (ms : List ℕ) (pool' : Pool) : Type 0 where
  pub valid : IsValid pool'.freeq
  pub same_spaces : spaces pool'.mbufs ≡ spaces pool.mbufs
  pub size : pool'.freeq.size ≡ pool.freeq.size
  pub depth : pool'.freeq.depth ≤ pool.freeq.depth + length ms
  pub refcnts : (q : ℕ) → (pool'.mbufs q).refcnt + count q ms ≡ (pool.mbufs q).refcnt
  pub freed :
      (q : ℕ)
      → count q (stack pool'.freeq)
        ≡ count q (stack pool.freeq)
          + (if not (count q ms == 0) && (pool.mbufs q).refcnt == count q ms then 1 else 0)

pub spaces-store :
    (mem : Memory) (p : ℕ) (v : Mbuf)
    → v.space ≡ (mem p).space
    → spaces (store mem p v) ≡ spaces mem
spaces-store mem p v e =
    fun_ext λ q. elim (Bool-cases (q == p)) [ inl h ↦ ground arith | inr h ↦ ground arith ]

-- One reference.
mbuf_deref_lem :
    (pool : Pool) (p : ℕ)
    → CanDeref pool (p ∷ [])
    → Returns (Dereffed pool (p ∷ [])) (mbuf_deref pool p)
unfolding mbuf_deref
mbuf_deref_lem pool p h = elim (Bool-cases ((pool.mbufs p).refcnt == 1)) [
  | inl e ↦
      (let mem = store pool.mbufs p (decref (pool.mbufs p)) in
        let unused : (mem p).refcnt ≡ 0 = ground (arith, e) in
        let (pushed, top, valid) = mqueue_push_reset mem p h.valid (omega (arith, h.room)) unused in
        rw (e, pushed)
          (record {
            valid = valid;
            same_spaces =
                spaces-store mem p (cleared (mem p) pool.freeq.hdrspace) refl
                ∙ spaces-store pool.mbufs p (decref (pool.mbufs p)) refl;
            size = refl;
            depth = omega arith;
            refcnts = λ q. ground (arith, h.referred q, h.small q);
            freed = λ q. ground (arith, ap (count q) top, h.referred q, e);
          }))
  | inr e ↦ rw e (record {
    valid = h.valid;
    same_spaces = spaces-store pool.mbufs p (decref (pool.mbufs p)) refl;
    size = refl;
    depth = omega arith;
    refcnts = λ q. ground (arith, h.referred q, h.small q);
    freed = λ q. ground (arith, h.referred q, e);
  })
]

-- One reference, and then the others.
CanDeref-behind :
    {pool : Pool} {p : ℕ} {ms : List ℕ} {pool1 : Pool}
    → CanDeref pool (p ∷ ms)
    → Dereffed pool (p ∷ []) pool1
    → CanDeref pool1 ms
CanDeref-behind {pool} {p} {ms} h d = record {
  valid = d.valid;
  room = omega (arith, h.room, d.depth, d.size);
  referred = λ q. ground (arith, h.referred q, d.refcnts q);
  small = λ q k. ground (arith, h.small q, d.refcnts q, k);
}

Dereffed-step :
    {pool : Pool} {p : ℕ} {ms : List ℕ} {pool1 pool2 : Pool}
    → CanDeref pool (p ∷ ms)
    → Dereffed pool (p ∷ []) pool1
    → Dereffed pool1 ms pool2
    → Dereffed pool (p ∷ ms) pool2
Dereffed-step {pool} {p} {ms} h d r = record {
  valid = r.valid;
  same_spaces = r.same_spaces ∙ d.same_spaces;
  size = r.size ∙ d.size;
  depth = omega (arith, r.depth, d.depth);
  refcnts = λ q. ground (arith, r.refcnts q, d.refcnts q);
  freed = λ q. ground (arith, h.referred q, r.freed q, d.freed q, d.refcnts q);
}

-- On a valid free queue with room, and with as many references to each buffer as the list has to
-- give back, deref_all returns: the count of each buffer goes down by the number of references to
-- it, just the buffers whose last reference went have come onto the free queue, once each, and the
-- bytes of all buffers are as they were.
pub deref_all_lem :
    (ms : List ℕ) (pool : Pool) → CanDeref pool ms → Returns (Dereffed pool ms) (deref_all pool ms)
unfolding deref_all
deref_all_lem [] pool h = record {
  valid = h.valid;
  same_spaces = refl;
  size = refl;
  depth = omega arith;
  refcnts = λ q. omega arith;
  freed = λ q. ground arith;
}
deref_all_lem (p ∷ ms) pool h =
    let one : CanDeref pool (p ∷ []) = record {
      valid = h.valid;
      room = omega (arith, h.room);
      referred = λ q. ground (arith, h.referred q);
      small = λ q k. h.small q (ground arith);
    } in
    let (pool1, step, d) = Returns-value (mbuf_deref pool p) (mbuf_deref_lem pool p one) in
    rw (deref_all, step)
      (Returns-map (deref_all pool1 ms) (λ pool2. Dereffed-step h d)
        (deref_all_lem ms pool1 (CanDeref-behind h d)))
