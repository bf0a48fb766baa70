-- ===== src/Mqueue.antt =====
-- struct mqueue of src/mbuf.c and its operations. The array `queue` holds `size` pointers, of which
-- the first `depth` are in use. Each operation is what one thread does while it holds the lock; a
-- wait on a condition variable ends the run with `blocked`.
pub mod Stack
pub mod Init
use iptfs.Prelude.{
  ℕ, ◌+◌, ◌-◌, Bool, true, false, not, ◌&&◌, List, get_or, set, replicate, Option, none, some, ltb,
  ◌==◌, if◌then◌else◌, Outcome, ok, stop, blocked, guard, ◌>>=◌, ◌>>◌,
}
use iptfs.Mbuf.{Mbuf, Memory, Ackinfo, no_acks, store, mbuf_len, mbuf_reset}

pub record Mqueue : Type 0 where
  pub queue : List ℕ
  pub size : ℕ
  pub depth : ℕ
  pub hdrspace : ℕ
  pub ackinfo : Ackinfo

abbrev mq_full : Mqueue → Bool
mq_full mq = mq.depth == mq.size

abbrev mq_empty : Mqueue → Bool
mq_empty mq = mq.depth == 0

-- What `malloc` leaves in the array is never read: the entries in use have been written.
unfoldable pub mqueue_new : ℕ → Mqueue
mqueue_new size = record {
  queue = replicate size 0;
  size = size;
  depth = 0;
  hdrspace = 0;
  ackinfo = no_acks;
}

-- The loop of mqueue_new_freeq over the buffers from `i` on, `n` of them. The buffers are the
-- pointers from 0 on; `fresh` is the memory as `malloc` returned it, which the loop sets in part.
abbrev init_mbufs : ℕ → ℕ → Memory → Memory
init_mbufs maxbuf hdrspace fresh p = record (fresh p) {
  espace = maxbuf;
  start = hdrspace;
  end = hdrspace;
}

unfoldable pub fill_freeq : ℕ → ℕ → Mqueue → Mqueue
fill_freeq ℕ.zero i mq = mq
fill_freeq (ℕ.suc n) i mq =
    fill_freeq n (i + 1) (record mq { queue = set mq.queue i i; depth = mq.depth + 1 })

unfoldable pub mqueue_new_freeq : ℕ → ℕ → ℕ → Memory → Mqueue × Memory
unfolding mqueue_new fill_freeq
mqueue_new_freeq size maxbuf hdrspace fresh = (
  fill_freeq size 0 (record (mqueue_new size) { hdrspace = hdrspace }),
  init_mbufs maxbuf hdrspace fresh,
)

unfoldable pub mqueue_pop : Mqueue → Outcome (ℕ × Mqueue)
mqueue_pop mq =
    if mq_empty mq
    then stop blocked
    else ok (get_or mq.queue (mq.depth - 1) 0, record mq { depth = mq.depth - 1 })

unfoldable pub mqueue_wait : Mqueue → Outcome (Unit {0})
mqueue_wait mq = if mq_empty mq then stop blocked else ok tt

-- A `maxsize` of 0 is no limit.
unfoldable pub mqueue_trypop : Memory → Mqueue → ℕ → Option ℕ × Mqueue
mqueue_trypop mem mq maxsize =
    let m = get_or mq.queue (mq.depth - 1) 0 in
    if mq_empty mq
    then (none, mq)
    else if not (maxsize == 0) && ltb maxsize (mbuf_len (mem m))
    then (none, mq)
    else (some m, record mq { depth = mq.depth - 1 })

-- `if (reset) mbuf_reset(m, mq->hdrspace)`
abbrev reset_if : Bool → Memory → ℕ → ℕ → Outcome Memory
reset_if true mem m hdrspace = mbuf_reset (mem m) hdrspace >>= λ v. ok (store mem m v)
reset_if false mem m hdrspace = ok mem

-- Returns the new depth, the memory and the queue.
unfoldable pub mqueue_push : Memory → Mqueue → ℕ → Bool → Outcome (ℕ × Memory × Mqueue)
unfolding mbuf_reset
mqueue_push mem mq m reset = reset_if reset mem m mq.hdrspace >>= λ mem'.
    if mq_full mq
    then stop blocked
    else ok
        (mq.depth + 1, mem', record mq { queue = set mq.queue mq.depth m; depth = mq.depth + 1 })

-- `drops`, `start` and `end`, and the queue with its record cleared.
unfoldable pub mqueue_get_ackinfo : Mqueue → ℕ × ℕ × ℕ × Mqueue
mqueue_get_ackinfo mq =
    (mq.ackinfo.ndrop, mq.ackinfo.start, mq.ackinfo.last, record mq { ackinfo = no_acks })

-- `&mq->ackinfo`, as its value.
abbrev pub mqueue_get_ackinfop : Mqueue → Ackinfo
mqueue_get_ackinfop mq = mq.ackinfo
