-- ===== src/Ingress/Release.antt =====
-- The release of used mbufs at the end of write_tfs_pkt (src/iptfs.c).
use mathlib.Core.Path.{fun_ext}
use iptfs.Prelude.{
  ℕ, ◌+◌, ◌≤◌, ◌<◌, ◌≡◌, refl, ap, ◌∙◌, true, Bool-cases, List, [], ◌∷◌, length, count, set, ◌==◌,
  ok, Returns, arith, Returns-map,
}
use iptfs.Mbuf.{Mbuf, Memory, store}
use iptfs.Mqueue.{Mqueue, mqueue_push}
use iptfs.Mqueue.Stack.{IsValid, stack, mqueue_push_lem}
use iptfs.Ingress.{Ingress, free_all, spaces}
use iptfs.Ingress.Stream.{IsSound}

-- The packet of a reset mbuf is empty and starts at `hdrspace`.
abbrev pub cleared : Mbuf → ℕ → Mbuf
cleared v hdrspace = record v { start = hdrspace; end = hdrspace; left = 0 }

-- mqueue_push with a reset, on a queue with room and an mbuf that nobody refers to.
pub mqueue_push_reset :
    (mem : Memory) {mq : Mqueue} (m : ℕ)
    → IsValid mq
    → mq.depth < mq.size
    → (mem m).refcnt ≡ 0
    → let mq' = record mq { queue = set mq.queue mq.depth m; depth = mq.depth + 1 } in
      (mqueue_push mem mq m true
        ≡ ok (mq.depth + 1, store mem m (cleared (mem m) mq.hdrspace), mq'))
      × (stack mq' ≡ m ∷ stack mq)
      × IsValid mq'
unfolding mqueue_push
mqueue_push_reset mem {mq} m v room free =
    (ground arith, (mqueue_push_lem mem m v room).1, (mqueue_push_lem mem m v room).2)

-- What holds of the free queue and the memory before and while mbufs are released.
pub record CanFree (st : Ingress) (ms : List ℕ) : Type 0 where
  pub sound : IsSound st.mbufs
  pub spacious : (p : ℕ) → st.freeq.hdrspace ≤ length (st.mbufs p).space
  pub unused : (p : ℕ) → (st.mbufs p).refcnt ≡ 0
  pub valid : IsValid st.freeq
  pub room : st.freeq.depth + length ms ≤ st.freeq.size

-- What releasing `ms` does.
pub record Freed (st : Ingress) (ms : List ℕ) (st' : Ingress) : Type 0 where
  pub sound : IsSound st'.mbufs
  pub same_spaces : spaces st'.mbufs ≡ spaces st.mbufs
  pub unused : (p : ℕ) → (st'.mbufs p).refcnt ≡ 0
  pub valid : IsValid st'.freeq
  pub own : (q : ℕ) → count q (stack st'.freeq) ≡ count q (stack st.freeq) + count q ms
  pub others : (p : ℕ) → count p ms ≡ 0 → st'.mbufs p ≡ st.mbufs p
  pub inq : st'.inq ≡ st.inq
  pub leftover : st'.leftover ≡ st.leftover
  pub depth : st'.freeq.depth ≡ st.freeq.depth + length ms
  pub size : st'.freeq.size ≡ st.freeq.size
  pub hdrspace : st'.freeq.hdrspace ≡ st.freeq.hdrspace

-- The first release, and then the others.
Freed-step :
    {st : Ingress} {m : ℕ} {ms : List ℕ} {st' : Ingress} (freeq' : Mqueue)
    → CanFree st (m ∷ ms)
    → stack freeq' ≡ m ∷ stack st.freeq
    → freeq'.depth ≡ st.freeq.depth + 1
    → freeq'.size ≡ st.freeq.size
    → freeq'.hdrspace ≡ st.freeq.hdrspace
    → Freed
        (record st {
          mbufs = store st.mbufs m (cleared (st.mbufs m) st.freeq.hdrspace);
          freeq = freeq';
        })
        ms
        st'
    → Freed st (m ∷ ms) st'
Freed-step {st} {m} {ms} {st'} freeq' h top depth size hdrspace r = record {
  sound = r.sound;
  same_spaces = r.same_spaces ∙ fun_ext λ q. ground (arith, Bool-cases (q == m));
  unused = r.unused;
  valid = r.valid;
  own = λ q. ground (arith, r.own q, ap (count q) top);
  others = λ p e. ground (arith, r.others p);
  inq = r.inq;
  leftover = r.leftover;
  depth = omega (arith, r.depth, depth);
  size = r.size ∙ size;
  hdrspace = r.hdrspace ∙ hdrspace;
}

CanFree-step :
    {st : Ingress} {m : ℕ} {ms : List ℕ} (freeq' : Mqueue)
    → CanFree st (m ∷ ms)
    → IsValid freeq'
    → freeq'.depth ≡ st.freeq.depth + 1
    → freeq'.size ≡ st.freeq.size
    → freeq'.hdrspace ≡ st.freeq.hdrspace
    → CanFree
        (record st {
          mbufs = store st.mbufs m (cleared (st.mbufs m) st.freeq.hdrspace);
          freeq = freeq';
        })
        ms
CanFree-step {st} {m} {ms} freeq' h valid depth size hdrspace = record {
  sound = record { at = λ p. ground (arith, h.sound.at p, h.spacious p) };
  spacious = λ p. ground (arith, h.spacious p);
  unused = λ p. ground (arith, h.unused p);
  valid = valid;
  room = omega (arith, h.room);
}

-- Every mbuf goes onto the free queue, and nothing blocks while there is room.
pub free_all_lem :
    (ms : List ℕ) (st : Ingress) → CanFree st ms → Returns (Freed st ms) (free_all st ms)
unfolding free_all
free_all_lem [] st h = record {
  sound = h.sound;
  same_spaces = refl;
  unused = h.unused;
  valid = h.valid;
  own = λ q. omega arith;
  others = λ p e. refl;
  inq = refl;
  leftover = refl;
  depth = omega arith;
  size = refl;
  hdrspace = refl;
}
free_all_lem (m ∷ ms) st h =
    let mbufs' = store st.mbufs m (cleared (st.mbufs m) st.freeq.hdrspace) in
    let freeq' : Mqueue = record st.freeq {
      queue = set st.freeq.queue st.freeq.depth m;
      depth = st.freeq.depth + 1;
    } in
    let (pushed, top, valid) =
      mqueue_push_reset st.mbufs m h.valid (omega (arith, h.room)) (h.unused m) in
    rw (free_all, pushed)
      (Returns-map (free_all (record st { mbufs = mbufs'; freeq = freeq' }) ms)
        (λ st'. Freed-step freeq' h top refl refl refl)
        (free_all_lem ms (record st { mbufs = mbufs'; freeq = freeq' })
          (CanFree-step freeq' h valid refl refl refl)))
