-- ===== src/Egress/Carry.antt =====
-- What add_to_inner_packet of src/iptfs.c does to the packets it is given and those it makes.
use iptfs.Prelude.{
  ℕ, ◌+◌, ◌-◌, ◌≤◌, ◌<◌, ◌≡◌, ◌≢◌, List, [], ◌∷◌, ◌++◌, map, length, count, Option, none, some, u16,
}
use iptfs.Mbuf.{mbuf_len, mbuf_bytes}
use iptfs.Mqueue.Stack.{ptrs}
use iptfs.Miov.{Miov, niov}
use iptfs.Ingress.{spaces}
use iptfs.Egress.{Egress}
use iptfs.Egress.Pieces.{pile, content, IsPlain}

-- A packet without pieces, with room for one.
abbrev pub Fresh : Miov → Type 0
Fresh mi = (mi.iov ≡ []) × (mi.len ≡ 0) × (0 < mi.maxiov)

-- The elements of a list pushed one after the other.
abbrev pub pushed {ℓ} : {A : Type ℓ} → List A → List A → List A
pushed [] s = s
pushed (x ∷ xs) s = pushed xs (x ∷ s)

-- The packets at hand, free and finished.
abbrev pub all_miovs : Egress → Option ℕ → List ℕ
all_miovs st m = ptrs m ++ (pile st.iovfreeq ++ pile st.outq)

-- Each packet is in one place, the free ones are fresh, and the queue of finished packets is one
-- without a free list.
pub record IsValid (st : Egress) (m : Option ℕ) : Type 0 where
  pub outq : IsPlain st.outq
  pub distinct : (q : ℕ) → count q (all_miovs st m) ≤ 1
  pub fresh : (q : ℕ) → 0 < count q (pile st.iovfreeq) → Fresh (st.miovs q)

-- The frame in the buffer `t` lies inside it, and the queues have room for `n` finished packets.
pub record HasRoom (st : Egress) (t n : ℕ) : Type 0 where
  pub inside :
      ((st.mbufs t).start ≤ (st.mbufs t).end) × ((st.mbufs t).end ≤ length (st.mbufs t).space)
  pub small : mbuf_len (st.mbufs t) < u16
  pub room : st.outq.depth + n ≤ st.outq.size
  pub supply : n ≤ length (pile st.iovfreeq)

-- The packet in the making, if any, holds the bytes `part`, and lacks `left` bytes.
abbrev pub Holds : Egress → Option ℕ → List ℕ → ℕ → Type 0
Holds st none part left = part ≡ []
Holds st (some p) part left =
    (content st p ≡ part)
    × ((st.miovs p).len ≡ length part)
    × (part ≢ [] → (st.miovs p).left ≡ left)
    × (part ≡ [] → (st.miovs p).iov ≡ [])

abbrev pub pieces : Egress → Option ℕ → ℕ
pieces st none = 0
pieces st (some p) = niov (st.miovs p)

-- From `st`, with `m` at hand, to `st'`, with `m'` at hand: the packets `out` are finished.
pub record Delivered (st : Egress) (t : ℕ) (m : Option ℕ) (out : List (List ℕ)) (part : List ℕ)
    (left : ℕ) (m' : Option ℕ) (st' : Egress) : Type 0 where
  pub valid : IsValid st' m'
  pub holds : Holds st' m' part left
  pub outputs : map (content st') (pile st'.outq) ≡ pushed out (map (content st) (pile st.outq))
  pub own : (q : ℕ) → count q (all_miovs st' m') ≡ count q (all_miovs st m)
  pub same_spaces : spaces st'.mbufs ≡ spaces st.mbufs
  pub others : (q : ℕ) → q ≢ t → st'.mbufs q ≡ st.mbufs q
  pub few_pieces : pieces st' m' ≤ pieces st m + 1
  pub maxiov : (q : ℕ) → (st'.miovs q).maxiov ≡ (st.miovs q).maxiov
  pub depth : st'.outq.depth ≡ st.outq.depth + length out
  pub size : st'.outq.size ≡ st.outq.size

-- A packet is finished with the next `n` bytes, and the bytes `rest` are left in the buffer.
pub record Leaves (st : Egress) (t p : ℕ) (packet : List ℕ) (n : ℕ) (rest : List ℕ) (st' : Egress)
    : Type 0 where
  pub delivered : Delivered st t (some p) (packet ∷ []) [] 0 none st'
  pub freeq : st'.iovfreeq ≡ st.iovfreeq
  pub bytes : mbuf_bytes (st'.mbufs t) ≡ rest
  pub len : mbuf_len (st'.mbufs t) ≡ mbuf_len (st.mbufs t) - n
  pub inside :
      ((st'.mbufs t).start ≤ (st'.mbufs t).end) × ((st'.mbufs t).end ≤ length (st'.mbufs t).space)
