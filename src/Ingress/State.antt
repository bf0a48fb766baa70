-- ===== src/Ingress/State.antt =====
-- The state of the thread that runs write_tfs_pkt (src/iptfs.c), and the mbuf that it starts with.
use iptfs.Prelude.{
  ℕ, ◌+◌, ◌-◌, ◌/◌, ◌≤◌, ◌<◌, ◌≡◌, inl, inr, refl, List, [], ◌++◌, length, count, Option, none,
  Option-cases,
}
use iptfs.Mbuf.{mbuf_len}
use iptfs.Mqueue.{mqueue_trypop}
use iptfs.Mqueue.Stack
use iptfs.Mqueue.Stack.{stack, ptrs, length-stack, mqueue_trypop-stack, mqueue_trypop_lem}
use iptfs.Ingress.{Config, Ingress, maxbuf, first_mbuf}
use iptfs.Ingress.Stream.{IsSound, packets, offset_of}
use iptfs.Ingress.Filled.{waited}
use iptfs.Ingress.Dense.{trypop_empty}

-- The mbufs whose packets wait to be sent, in the order of sending.
abbrev pub waiting : Ingress → List ℕ
waiting st = ptrs st.leftover ++ stack st.inq

-- The packets that wait to be sent, the first without what has been sent of it.
abbrev pub unsent : Ingress → List (List ℕ)
unsent st = packets st.mbufs (waiting st)

-- The MTU leaves room for the header, a packet's length field and padding, is within `padbytes`, and
-- the arrays hold the pieces of a frame.
pub record Fits (c : Config) : Type 0 where
  pub mtu_min : 14 < c.tfsmtu
  pub mtu_max : c.tfsmtu ≤ maxbuf
  pub arrays : (c.tfsmtu - 8) / 20 + 4 ≤ c.max_inner_pkt

-- Every mbuf is in one place, the packets lie inside their buffers and have at least 20 bytes, the
-- length of an IPv4 header, unless they are left over, and the free queue has room for them all.
pub record IsValid (st : Ingress) : Type 0 where
  pub distinct : (q : ℕ) → count q (waiting st) + count q (stack st.freeq) ≤ 1
  pub sound : IsSound st.mbufs
  pub spacious : (p : ℕ) → st.freeq.hdrspace ≤ length (st.mbufs p).space
  pub unused : (p : ℕ) → (st.mbufs p).refcnt ≡ 0
  pub inq_valid : Stack.IsValid st.inq
  pub freeq_valid : Stack.IsValid st.freeq
  pub capacity : length (waiting st) + st.freeq.depth ≤ st.freeq.size
  pub long : (q : ℕ) → 0 < count q (stack st.inq) → 20 ≤ mbuf_len (st.mbufs q)

-- The state with the first mbuf taken off.
pub record Taken (st : Ingress) (m : Option ℕ) (offset : ℕ) (st' : Ingress) : Type 0 where
  pub same : ptrs m ++ stack st'.inq ≡ waiting st
  pub valid : Stack.IsValid st'.inq
  pub no_leftover : st'.leftover ≡ none
  pub mbufs : st'.mbufs ≡ st.mbufs
  pub freeq : st'.freeq ≡ st.freeq
  pub at : offset ≡ offset_of st
  pub behind : (q : ℕ) → 0 < count q (stack st'.inq) → 0 < count q (stack st.inq)
  pub empty : m ≡ none → waiting st ≡ []

pub first_mbuf_lem :
    (st : Ingress)
    → Stack.IsValid st.inq
    → Taken st (first_mbuf st).0 (first_mbuf st).1 (first_mbuf st).2
unfolding first_mbuf
first_mbuf_lem st v = elim (Option-cases st.leftover) [
  | inl e ↦
      simp (first_mbuf, e)
        (let (same, valid) = mqueue_trypop-stack st.mbufs 0 v in
          record {
            same = rw e same;
            valid = valid;
            no_leftover = refl;
            mbufs = refl;
            freeq = refl;
            at = rw e;
            behind = λ q k.
                waited (mqueue_trypop st.mbufs st.inq 0).0
                  (stack (mqueue_trypop st.mbufs st.inq 0).1) q same (inr k);
            empty = λ x. rw e (trypop_empty st.mbufs v x);
          })
  | inr (p, e) ↦
      simp (first_mbuf, e)
        (record {
          same = rw e;
          valid = v;
          no_leftover = refl;
          mbufs = refl;
          freeq = refl;
          at = rw e;
          behind = λ q k. k;
          empty = λ x. cc;
        })
]
