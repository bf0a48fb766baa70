-- ===== src/Miov/Counts.antt =====
-- mbuf_deref and miov_reset of src/mbuf.c with exact reference counts: nothing blocks, since a buffer
-- that somebody refers to is not on the free queue.
use iptfs.Prelude.{
  ℕ, ◌+◌, ◌-◌, ◌<◌, ◌≡◌, ap, ◌∙◌, ◌&&◌, Bool-cases, inl, inr, refl, List, [], ◌∷◌, count, ltb, ◌==◌,
  if◌then◌else◌, u32, Returns, Returns-map, Returns-value, arith,
}
use iptfs.Mbuf.{decref, store}
use iptfs.Ingress.{spaces}
use iptfs.Miov.Deref.{spaces-store}
use iptfs.Mqueue.Stack.{IsValid, stack, length-stack}
use iptfs.Ingress.Release.{cleared, mqueue_push_reset}
use iptfs.Miov.References.{length-lt}
use iptfs.Miov.{Pool, mbuf_deref, deref_all}

-- The buffers of the free queue.
abbrev pub buffers : ℕ
buffers = 256

-- The buffer `q` has the reference count `g q`, and is on the free queue where that is 0.
pub record IsCounted (g : ℕ → ℕ) (pool : Pool) : Type 0 where
  pub valid : IsValid pool.freeq
  pub size : pool.freeq.size ≡ buffers
  pub refcnts : (q : ℕ) → (pool.mbufs q).refcnt ≡ g q
  pub free : (q : ℕ) → count q (stack pool.freeq) ≡ (if ltb q buffers && g q == 0 then 1 else 0)
  pub inside : (q : ℕ) → 0 < g q → q < buffers

pub IsCounted-same :
    {g g' : ℕ → ℕ} {pool : Pool} → ((q : ℕ) → g' q ≡ g q) → IsCounted g pool → IsCounted g' pool
IsCounted-same same c = record {
  valid = c.valid;
  size = c.size;
  refcnts = λ q. omega (arith, c.refcnts q, same q);
  free = λ q. ground (arith, c.free q, same q);
  inside = λ q k. c.inside q (omega (arith, same q, k));
}

-- A buffer with references leaves room on the free queue.
pub has_room :
    {g : ℕ → ℕ} {pool : Pool} (p : ℕ)
    → IsCounted g pool
    → 0 < g p
    → pool.freeq.depth < pool.freeq.size
has_room {g} {pool} p c used = omega (
  arith,
  c.size,
  length-stack pool.freeq,
  length-lt buffers p (stack pool.freeq) (λ q. ground (arith, c.free q))
      (λ q k. ground (arith, c.free q, k)) (c.inside p used) (ground (arith, c.free p, used)),
)

-- One reference less.
abbrev pub without : ℕ → (ℕ → ℕ) → ℕ → ℕ
without p g q = if q == p then g q - 1 else g q

-- The references counted by `g` are left, and the bytes of the buffers are as they were.
pub record Leaves (g : ℕ → ℕ) (pool pool' : Pool) : Type 0 where
  pub counted : IsCounted g pool'
  pub same_spaces : spaces pool'.mbufs ≡ spaces pool.mbufs
  pub in_use :
      (q : ℕ)
      → 0 < g q
      → ((pool'.mbufs q).start ≡ (pool.mbufs q).start) × ((pool'.mbufs q).end ≡ (pool.mbufs q).end)

mbuf_deref-Leaves :
    {g : ℕ → ℕ} {pool : Pool} (p : ℕ)
    → IsCounted g pool
    → 0 < g p
    → g p < u32
    → Returns (Leaves (without p g) pool) (mbuf_deref pool p)
unfolding mbuf_deref
mbuf_deref-Leaves {g} {pool} p c used small = elim (Bool-cases ((pool.mbufs p).refcnt == 1)) [
  | inl e ↦
      (let mem = store pool.mbufs p (decref (pool.mbufs p)) in
        let unused : (mem p).refcnt ≡ 0 = ground (arith, e) in
        let (pushed, top, valid) = mqueue_push_reset mem p c.valid (has_room p c used) unused in
        rw (e, pushed)
          (record {
            counted = record {
              valid = valid;
              size = c.size;
              refcnts = λ q. ground (arith, c.refcnts q, c.refcnts p, e);
              free =
                  λ q. ground (arith, ap (count q) top, c.free q, c.refcnts p, c.inside p used, e);
              inside = λ q k. c.inside q (ground (arith, k));
            };
            same_spaces =
                spaces-store mem p (cleared (mem p) pool.freeq.hdrspace) refl
                ∙ spaces-store pool.mbufs p (decref (pool.mbufs p)) refl;
            in_use = λ q k. ground (arith, k, c.refcnts p, e);
          }))
  | inr e ↦ rw e (record {
    counted = record {
      valid = c.valid;
      size = c.size;
      refcnts = λ q. ground (arith, c.refcnts q, c.refcnts p, small);
      free = λ q. ground (arith, c.free q, c.refcnts p, e, used);
      inside = λ q k. c.inside q (ground (arith, k));
    };
    same_spaces = spaces-store pool.mbufs p (decref (pool.mbufs p)) refl;
    in_use = λ q k. ground (arith, k);
  })
]

-- The references of the list, on top of those that `g` counts.
abbrev pub with : List ℕ → (ℕ → ℕ) → ℕ → ℕ
with ms g q = g q + count q ms

pub deref_all-Leaves :
    (g : ℕ → ℕ) (ms : List ℕ) {pool : Pool}
    → IsCounted (with ms g) pool
    → ((q : ℕ) → with ms g q < u32)
    → Returns (Leaves g pool) (deref_all pool ms)
unfolding deref_all
deref_all-Leaves g [] c small = record {
  counted = IsCounted-same (λ q. omega arith) c;
  same_spaces = refl;
  in_use = λ q k. (refl, refl);
}
deref_all-Leaves g (p ∷ ms) {pool} c small =
    let (pool1, step, one) =
      Returns-value (mbuf_deref pool p) (mbuf_deref-Leaves p c (ground arith) (small p)) in
    rw (deref_all, step)
      (Returns-map (deref_all pool1 ms)
        (λ pool2 r. record {
          counted = r.counted;
          same_spaces = r.same_spaces ∙ one.same_spaces;
          in_use = λ q k. (
            (r.in_use q k).0 ∙ (one.in_use q (ground (arith, k))).0,
            (r.in_use q k).1 ∙ (one.in_use q (ground (arith, k))).1,
          );
        })
        (deref_all-Leaves g ms (IsCounted-same (λ q. ground arith) one.counted)
          (λ q. ground (arith, small q))))
