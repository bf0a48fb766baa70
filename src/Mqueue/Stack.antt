-- ===== src/Mqueue/Stack.antt =====
-- An mqueue of src/mbuf.c behaves as a bounded stack of pointers: the last one pushed comes first.
use native.Mathlib.Numerals.{add-one}
use iptfs.Prelude.{
  ℕ, zero, suc, ◌+◌, ◌-◌, ◌≤◌, ◌<◌, ◌≡◌, ◌≢◌, ◌⊎◌, inl, inr, refl, ap, ◌∙◌, sym, false, not, ◌&&◌,
  List, [], ◌∷◌, ◌++◌, length, get_or, set, length-set, get_or-set_self, get_or-set_ne, Option,
  none, some, ltb, ◌==◌, Outcome, ok, stop, Returns, ◌>>=◌, blocked, arith, Bool-cases, ==→eq,
  ==→ne,
}
use iptfs.Mbuf.{Memory, mbuf_len}
use iptfs.Mqueue.{Mqueue, mqueue_pop, mqueue_trypop, mqueue_push}

pub record IsValid (mq : Mqueue) : Type 0 where
  pub storage : length mq.queue ≡ mq.size
  pub depth_in : mq.depth ≤ mq.size

-- The entries below `d`, the topmost first.
abbrev pub below : List ℕ → ℕ → List ℕ
below queue zero = []
below queue (suc d) = get_or queue d 0 ∷ below queue d

abbrev pub stack : Mqueue → List ℕ
stack mq = below mq.queue mq.depth

pub length-below : (queue : List ℕ) (d : ℕ) → length (below queue d) ≡ d
length-below queue zero = refl
length-below queue (suc d) = ap suc (length-below queue d)

below-set : (queue : List ℕ) (d i v : ℕ) → d ≤ i → below (set queue i v) d ≡ below queue d
below-set queue zero i v h = refl
below-set queue (suc d) i v h =
    rw (get_or-set_ne queue i d v 0 (omega arith), below-set queue d i v (omega arith))

pub below-pred :
    (queue : List ℕ) (d : ℕ) → d ≢ 0 → below queue d ≡ get_or queue (d - 1) 0 ∷ below queue (d - 1)
below-pred queue zero h = absurd (h refl)
below-pred queue (suc d) h = ap (λ k. get_or queue k 0 ∷ below queue k) (omega arith)

-- A pointer written at the depth comes on top.
pub below-push :
    (queue : List ℕ) (d m : ℕ)
    → d < length queue
    → below (set queue d m) (d + 1) ≡ m ∷ below queue d
below-push queue d m h =
    rw add-one (rw (get_or-set_self queue d m 0 h, below-set queue d d m (omega arith)))

pub length-stack : (mq : Mqueue) → length (stack mq) ≡ mq.depth
length-stack mq = length-below mq.queue mq.depth

-- mqueue_pop on a stack of pointers: it blocks if there is none, and takes the topmost one.
abbrev pub Popped : Mqueue → Outcome (ℕ × Mqueue) → Type 0
Popped mq (stop e) = (e ≡ blocked) × (stack mq ≡ [])
Popped mq (ok (p, mq')) =
    (stack mq ≡ p ∷ stack mq') × IsValid mq' × (mq'.size ≡ mq.size) × (mq'.hdrspace ≡ mq.hdrspace)

-- On a valid queue, mqueue_pop blocks if the stack is empty, and otherwise returns its top and leaves
-- the rest, a valid queue of the same size.
pub mqueue_pop_lem : {mq : Mqueue} → IsValid mq → Popped mq (mqueue_pop mq)
unfolding mqueue_pop
mqueue_pop_lem {mq} v = elim (Bool-cases (mq.depth == 0)) [
  | inl e ↦ rw e (ground (arith, ==→eq _ _ e))
  | inr e ↦ rw e (below-pred mq.queue mq.depth (==→ne _ _ e), omega arith, refl, refl)
]

-- mqueue_trypop never blocks: on an empty stack, or where the top is a packet longer than a nonzero
-- `maxsize`, it returns nothing and leaves the queue as it is; otherwise it acts as mqueue_pop.
pub mqueue_trypop_lem :
    (mem : Memory) {mq : Mqueue} (maxsize : ℕ)
    → IsValid mq
    → let (m, mq') = mqueue_trypop mem mq maxsize in
      ((m ≡ none)
        × (mq' ≡ mq)
        × ((stack mq ≡ []) ⊎ ((maxsize ≢ 0) × (maxsize < mbuf_len (mem (get_or (stack mq) 0 0))))))
      ⊎ ((p : ℕ) × (m ≡ some p)
          × (stack mq ≡ p ∷ stack mq')
          × ((maxsize ≡ 0) ⊎ (mbuf_len (mem p) ≤ maxsize))
          × IsValid mq')
unfolding mqueue_trypop
mqueue_trypop_lem mem {mq} maxsize v = elim (Bool-cases (mq.depth == 0)) [
  | inl e ↦ rw e (inl (refl, refl, inl (ground (arith, ==→eq _ _ e))))
  | inr e ↦ rw e (
      let top = below-pred mq.queue mq.depth (==→ne _ _ e) in
      elim (Bool-cases
        (not (maxsize == 0) && ltb maxsize (mbuf_len (mem (get_or mq.queue (mq.depth - 1) 0))))) [
          | inl f ↦ rw f (inl (refl, refl, inr (ground arith, rw top (ground arith))))
          | inr f ↦ rw f (
              inr (
                get_or mq.queue (mq.depth - 1) 0,
                refl,
                top,
                ground arith,
                omega (arith, v.storage, v.depth_in),
              ))
        ])
]

-- The pointer that an operation handed out, if any.
abbrev pub ptrs : Option ℕ → List ℕ
ptrs none = []
ptrs (some p) = p ∷ []

-- With what it hands out, mqueue_trypop leaves the stack as it was.
pub mqueue_trypop-stack :
    (mem : Memory) {mq : Mqueue} (maxsize : ℕ)
    → IsValid mq
    → let (m, mq') = mqueue_trypop mem mq maxsize in (ptrs m ++ stack mq' ≡ stack mq) × IsValid mq'
mqueue_trypop-stack mem {mq} maxsize v = elim (mqueue_trypop_lem mem maxsize v) [
  | inl (e, same, _) ↦ rw (e, same) (refl, v)
  | inr (p, e, top, _, valid) ↦ (rw e (sym top), valid)
]

-- On a valid queue that is not full, mqueue_push without a reset returns the new depth, leaves the
-- memory alone, and puts the pointer on top of the stack; the queue stays valid.
pub mqueue_push_lem :
    (mem : Memory) {mq : Mqueue} (m : ℕ)
    → IsValid mq
    → mq.depth < mq.size
    → let mq' = record mq { queue = set mq.queue mq.depth m; depth = mq.depth + 1 } in
      (mqueue_push mem mq m false ≡ ok (mq.depth + 1, mem, mq'))
      × (stack mq' ≡ m ∷ stack mq)
      × IsValid mq'
unfolding mqueue_push
mqueue_push_lem mem {mq} m v h = (
  ground arith,
  below-push mq.queue mq.depth m (omega (arith, v.storage)),
  record { storage = length-set mq.queue mq.depth m ∙ v.storage; depth_in = omega arith },
)

-- The queue is last in, first out: after mqueue_push of two packets on a valid queue with room for
-- both, the next two calls of mqueue_pop return the second packet, then the first, and leave the
-- stack as it was before.
pub pop-push_reversed :
    (mem : Memory) {mq : Mqueue} (a b : ℕ)
    → IsValid mq
    → mq.depth + 1 < mq.size
    → Returns
        (λ (p, q, mq'). (p ≡ b) × (q ≡ a) × (stack mq' ≡ stack mq))
        (do
          (_, mem1, mq1) ← mqueue_push mem mq a false
          (_, mem2, mq2) ← mqueue_push mem1 mq1 b false
          (p, mq3) ← mqueue_pop mq2
          (q, mq4) ← mqueue_pop mq3
          ok (p, q, mq4))
unfolding mqueue_pop
pop-push_reversed mem {mq} a b v h =
    let one = mqueue_push_lem mem a v (omega arith) in
    let two = mqueue_push_lem mem b one.2 h in
    rw (one.0, two.0)
      (ground (
        arith,
        get_or-set_self queue' (mq.depth + 1) b 0
            (omega (arith, v.storage, length-set mq.queue mq.depth a)),
        get_or-set_ne queue' (mq.depth + 1) mq.depth b 0 (omega arith),
        get_or-set_self mq.queue mq.depth a 0 (omega (arith, v.storage)),
        below-set queue' mq.depth (mq.depth + 1) b (omega arith),
        below-set mq.queue mq.depth mq.depth a (omega arith),
      ))
  where
    queue' : List ℕ
    queue' = set mq.queue mq.depth a
