-- ===== src/Mqueue/Init.antt =====
-- The free queue that mqueue_new_freeq of src/mbuf.c makes.
use iptfs.Prelude.{
  ℕ, zero, suc, ◌+◌, ◌≤◌, ◌≡◌, refl, ap, ◌&&◌, count, set, length-replicate, ltb, leb,
  if◌then◌else◌, arith,
}
use iptfs.Mbuf.{Memory, mbuf_len}
use iptfs.Mqueue.{Mqueue, mqueue_new, fill_freeq, mqueue_new_freeq}
use iptfs.Mqueue.Stack.{IsValid, stack, mqueue_push_lem}

-- What the loop makes of a queue: `n` more pointers, from the depth on.
record Fills (n : ℕ) (mq mq' : Mqueue) : Type 0 where
  valid : IsValid mq'
  depth : mq'.depth ≡ mq.depth + n
  size : mq'.size ≡ mq.size
  hdrspace : mq'.hdrspace ≡ mq.hdrspace
  own :
      (q : ℕ)
      → count q (stack mq')
        ≡ count q (stack mq) + (if leb mq.depth q && ltb q (mq.depth + n) then 1 else 0)

fill_freeq-Fills :
    (mem : Memory) (n : ℕ) (mq : Mqueue)
    → IsValid mq
    → mq.depth + n ≤ mq.size
    → Fills n mq (fill_freeq n mq.depth mq)
unfolding fill_freeq
fill_freeq-Fills mem zero mq v h = record {
  valid = v;
  depth = omega arith;
  size = refl;
  hdrspace = refl;
  own = λ q. ground arith;
}
fill_freeq-Fills mem (suc n) mq v h =
    let mq1 : Mqueue = record mq { queue = set mq.queue mq.depth mq.depth; depth = mq.depth + 1 } in
    let (_, top, v1) = mqueue_push_lem mem mq.depth v (omega arith) in
    let f = fill_freeq-Fills mem n mq1 v1 (omega (arith, h)) in
    record {
      valid = f.valid;
      depth = omega (arith, f.depth);
      size = f.size;
      hdrspace = f.hdrspace;
      own = λ q. ground (arith, f.own q, ap (count q) top);
    }

pub mqueue_new-IsValid : (size : ℕ) → IsValid (mqueue_new size)
unfolding mqueue_new
mqueue_new-IsValid size = record { storage = length-replicate size 0; depth_in = omega arith }

-- mqueue_new_freeq makes a full valid queue of the given size and header space, in which each of the
-- pointers below the size stands once, and every buffer is an empty packet behind the header space
-- with the given end of its memory; what malloc left in the rest of the struct stays.
pub mqueue_new_freeq_lem :
    (size maxbuf hdrspace : ℕ) (fresh : Memory)
    → let (mq, mem) = mqueue_new_freeq size maxbuf hdrspace fresh in
      IsValid mq
      × (mq.depth ≡ size)
      × (mq.size ≡ size)
      × (mq.hdrspace ≡ hdrspace)
      × ((q : ℕ) → count q (stack mq) ≡ (if ltb q size then 1 else 0))
      × ((p : ℕ)
          → (mbuf_len (mem p) ≡ 0)
            × ((mem p).start ≡ hdrspace)
            × ((mem p).espace ≡ maxbuf)
            × ((mem p).space ≡ (fresh p).space)
            × ((mem p).refcnt ≡ (fresh p).refcnt))
unfolding mqueue_new_freeq mqueue_new
mqueue_new_freeq_lem size maxbuf hdrspace fresh =
    let empty : Mqueue = record (mqueue_new size) { hdrspace = hdrspace } in
    let v : IsValid empty = record { storage = length-replicate size 0; depth_in = omega arith } in
    let f = fill_freeq-Fills fresh size empty v (omega arith) in
    (
      f.valid,
      omega (arith, f.depth),
      f.size,
      f.hdrspace,
      λ q. ground (arith, f.own q),
      λ p. (omega arith, refl, refl, refl, refl),
    )
