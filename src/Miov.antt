-- ===== src/Miov.antt =====
-- struct miov (src/iptfs.h) and the miov queues (src/mbuf.c): packets put together from pieces of
-- several mbufs. The entries of the arrays `iov` and `mbufs` that are in use are the two lists, and
-- `niov` is their length.
pub mod Deref
pub mod Counts
pub mod References
use iptfs.Prelude.{
  ℕ, zero, suc, ◌+◌, ◌-◌, Bool, true, false, List, [], ◌∷◌, ◌++◌, length, get_or, set, replicate,
  ltb, ◌==◌, if◌then◌else◌, Outcome, ok, stop, blocked, overrun, guard, ◌>>=◌, ◌>>◌,
}
use iptfs.Iovec.{Iovec, in_mbuf}
use iptfs.Mbuf.{Memory, store, incref, decref}
use iptfs.Mqueue.{Mqueue, mqueue_push}

pub record Miov : Type 0 where
  pub iov : List Iovec
  pub mbufs : List ℕ
  pub len : ℕ
  pub left : ℕ
  pub maxiov : ℕ

abbrev pub niov : Miov → ℕ
niov m = length m.iov

-- `mq->freeq` is not the pointer but whether there is one: every queue that has one has the same.
pub record Miovq : Type 0 where
  pub has_freeq : Bool
  pub queue : List ℕ
  pub size : ℕ
  pub depth : ℕ

unfoldable pub miovq_new : ℕ → Miovq
miovq_new size = record { has_freeq = false; queue = replicate size 0; size = size; depth = 0 }

unfoldable pub fill_miovq : ℕ → ℕ → Miovq → Miovq
fill_miovq zero i mq = mq
fill_miovq (suc n) i mq =
    fill_miovq n (i + 1) (record mq { queue = set mq.queue i i; depth = mq.depth + 1 })

-- `fresh` is the memory as `malloc` returned it: only `maxiov` and the addresses of the arrays are
-- set in it.
unfoldable pub miovq_new_freeq : ℕ → ℕ → (ℕ → Miov) → Miovq × (ℕ → Miov)
unfolding miovq_new fill_miovq
miovq_new_freeq size maxiov fresh = (
  fill_miovq size 0 (record (miovq_new size) { has_freeq = true }),
  λ p. record (fresh p) { maxiov = maxiov },
)

unfoldable pub miovq_pop : Miovq → Outcome (ℕ × Miovq)
miovq_pop mq =
    if mq.depth == 0
    then stop blocked
    else ok (get_or mq.queue (mq.depth - 1) 0, record mq { depth = mq.depth - 1 })

-- The memory of mbufs with the free queue, which releasing a reference may change.
pub record Pool : Type 0 where
  pub mbufs : Memory
  pub freeq : Mqueue

-- "if (atomic_fetch_sub(&m->refcnt, 1) == 1) mqueue_push(freeq, m, true)"
unfoldable pub mbuf_deref : Pool → ℕ → Outcome Pool
unfolding mqueue_push
mbuf_deref pool p =
    let old = (pool.mbufs p).refcnt in
    let mbufs = store pool.mbufs p (decref (pool.mbufs p)) in
    if old == 1
    then (mqueue_push mbufs pool.freeq p true >>= λ (_, mbufs', freeq').
        ok (record { mbufs = mbufs'; freeq = freeq' }))
    else ok (record pool { mbufs = mbufs })

unfoldable pub deref_all : Pool → List ℕ → Outcome Pool
deref_all pool [] = ok pool
deref_all pool (p ∷ ps) = elim (mbuf_deref pool p) [
  | ok pool' ↦ deref_all pool' ps
  | stop e ↦ stop e
]

abbrev pub emptied : Miov → Miov
emptied m = record m { iov = []; mbufs = []; len = 0; left = 0 }

unfoldable pub miov_reset : Pool → Miov → Outcome (Pool × Miov)
unfolding mbuf_deref deref_all
miov_reset pool m = deref_all pool m.mbufs >>= λ pool'. ok (pool', emptied m)

-- Returns the mbuf pool, the miovs and the queue; the depth that the C code returns is in the queue.
unfoldable pub miovq_push : Pool → (ℕ → Miov) → Miovq → ℕ → Outcome (Pool × (ℕ → Miov) × Miovq)
unfolding miov_reset
miovq_push pool miovs mq m =
    let push = λ (pool' : Pool) (miovs' : ℕ → Miov).
      if mq.depth == mq.size
      then stop blocked
      else ok
          (pool', miovs', record mq { queue = set mq.queue mq.depth m; depth = mq.depth + 1 }) in
    if mq.has_freeq
    then (miov_reset pool (miovs m) >>= λ (pool', v). push pool' (store miovs m v))
    else push pool miovs

-- A piece of `len` bytes at the offset `start` of the mbuf `p`. The C code does not look at maxiov.
unfoldable pub miov_addmbuf : Memory → Miov → ℕ → ℕ → ℕ → Outcome (Memory × Miov)
miov_addmbuf mem mi p start len =
    guard (ltb (niov mi) mi.maxiov) overrun
    >> ok (
      store mem p (incref (mem p)),
      record mi {
        iov = mi.iov ++ record { iov_base = in_mbuf p start; iov_len = len } ∷ [];
        mbufs = mi.mbufs ++ p ∷ [];
        len = mi.len + len;
      },
    )
