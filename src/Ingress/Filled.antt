-- ===== src/Ingress/Filled.antt =====
-- What the packing loop of write_tfs_pkt (src/iptfs.c) starts from and what it does, as records, and
-- the next mbuf that it takes.
use iptfs.Prelude.{
  ℕ, ◌+◌, ◌/◌, ◌≤◌, ◌<◌, ◌≡◌, ◌⊎◌, inl, inr, refl, not, ◌&&◌, Bool-cases, List, ◌++◌, length, count,
  replicate, Option, none, some, ltb, if◌then◌else◌, arith,
}
use iptfs.Iovec.{iovlen, gather}
use iptfs.Mbuf.{mbuf_len}
use iptfs.Mqueue.Stack.{IsValid, stack, ptrs, mqueue_trypop-stack}
use iptfs.Ingress.{Config, Ingress, Frame, next_mbuf, spaces}
use iptfs.Ingress.Stream.{stream, packets, IsSound}
use iptfs.Ingress.Dense.{pop_drained, IsDense, Drained, IsPacked}

-- What was handed out of a stack, or is still on it, was on it.
pub waited :
    (m : Option ℕ) (s' : List ℕ) {s : List ℕ} (q : ℕ)
    → ptrs m ++ s' ≡ s
    → (m ≡ some q) ⊎ (0 < count q s')
    → 0 < count q s
waited none s' q e h = rw (← e) (ground arith)
waited (some p) s' q e h = rw (← e) (ground arith)

module _ (c : Config) where
  -- The next mbuf, if any, comes off the top of the queue; without one the queue is as it was.
  pub next_mbuf_lem :
      (st : Ingress) (mtu : ℕ)
      → IsValid st.inq
      → let (m, inq') = next_mbuf c st mtu in
        (ptrs m ++ stack inq' ≡ stack st.inq)
        × IsValid inq'
        × ((m ≡ none) ⊎ (6 < mtu))
        × (IsDense c → Drained inq' mtu m)
  unfolding next_mbuf
  next_mbuf_lem st mtu v = elim (Bool-cases (ltb 6 mtu && not c.oneonly)) [
    | inl e ↦ rw e (
        let (same, valid) = mqueue_trypop-stack st.mbufs (if c.dontfrag then mtu else 0) v in
        (
          same,
          valid,
          inr (ground arith),
          λ dense x. inr (pop_drained st.mbufs _ v (rw dense.0 refl) x),
        ))
    | inr e ↦ rw e (refl, v, inl refl, λ dense x. inl (ground (arith, e, dense.1)))
  ]

  -- The condition under which a round runs: distinct mbufs, packets inside their buffers, at least
  -- 20 bytes in each packet that waits, and room in the arrays for the rest of the frame.
  pub record CanFill (f : Frame) (mtu : ℕ) (m : Option ℕ) : Type 0 where
    pub distinct : (q : ℕ) → count q (ptrs m ++ stack f.inq) ≤ 1
    pub sound : IsSound f.mbufs
    pub valid : IsValid f.inq
    pub no_leftover : f.leftover ≡ none
    pub frees : length f.freem + 1 ≤ length f.iovs
    pub long : (q : ℕ) → 0 < count q (stack f.inq) → 20 ≤ mbuf_len (f.mbufs q)
    pub fits : (m ≡ none) ⊎ (6 < mtu)
    pub room :
        (length f.iovs + mtu / 20 + 3 ≤ c.max_inner_pkt)
        ⊎ ((length f.iovs + mtu / 20 + 2 ≤ c.max_inner_pkt)
            × ((q : ℕ) → m ≡ some q → 20 ≤ mbuf_len (f.mbufs q)))

  -- What the loop has done to `f`, with `mtu` bytes free and `m` in hand, when it ends with `f'`.
  pub record Filled (header : List ℕ) (f : Frame) (mtu : ℕ) (m : Option ℕ) (f' : Frame)
      : Type 0 where
    pub sent : List ℕ
    pub zeros : ℕ
    pub size : length sent + zeros ≡ mtu
    pub whole : (zeros ≡ 0) ⊎ (f'.leftover ≡ none)
    pub len : iovlen f'.iovs ≡ iovlen f.iovs + mtu
    pub frame :
        gather (spaces f'.mbufs) header f'.iovs
        ≡ gather (spaces f.mbufs) header f.iovs ++ (sent ++ replicate zeros 0)
    pub conserved :
        stream f.mbufs (ptrs m ++ stack f.inq)
        ≡ sent ++ stream f'.mbufs (ptrs f'.leftover ++ stack f'.inq)
    pub dense :
        IsDense c
        → Drained f.inq mtu m
        → IsPacked (packets f.mbufs (ptrs m ++ stack f.inq)) mtu (sent ++ replicate zeros 0) f'
    pub own :
        (q : ℕ)
        → count q (ptrs f'.leftover ++ stack f'.inq) + count q f'.freem
          ≡ count q (ptrs m ++ stack f.inq) + count q f.freem
    pub own_len :
        length (ptrs f'.leftover ++ stack f'.inq) + length f'.freem
        ≡ length (ptrs m ++ stack f.inq) + length f.freem
    pub refcnts : (q : ℕ) → (f'.mbufs q).refcnt ≡ (f.mbufs q).refcnt
    pub long : (q : ℕ) → 0 < count q (stack f'.inq) → 20 ≤ mbuf_len (f'.mbufs q)
    pub same_spaces : spaces f'.mbufs ≡ spaces f.mbufs
    pub sound : IsSound f'.mbufs
    pub valid : IsValid f'.inq
    pub freeq : f'.freeq ≡ f.freeq
    pub frees : length f'.freem + 1 ≤ length f'.iovs
    pub room : length f'.iovs ≤ c.max_inner_pkt
