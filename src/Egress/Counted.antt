-- ===== src/Egress/Counted.antt =====
-- The packets and buffers that add_to_inner_packet of src/iptfs.c works on: each packet is in one
-- place, and each buffer has as many references as its count says.
use iptfs.Prelude.{
  ℕ, ◌+◌, ◌≤◌, ◌<◌, ◌≡◌, refl, ap, ◌∙◌, true, Bool-cases, inl, inr, List, [], ◌∷◌, ◌++◌, length,
  count, count-append, length-append, ltb, ◌==◌, if◌then◌else◌, Whenever, arith, ==→eq, ltb→lt,
}
use iptfs.Iovec.{in_mbuf}
use iptfs.Mbuf.{Memory, store, incref}
use iptfs.Miov.{Miov, niov}
use iptfs.Miov.References.{refs, refs-same, refs-store, refs-bound}
use iptfs.Miov.Counts.{buffers, IsCounted, IsCounted-same}
use iptfs.Egress.{Egress, set_start, set_left, take_piece}
use iptfs.Egress.Pieces.{pile, IsPlain, pieced, take_piece_lem}

-- The packets at hand, the free and the finished ones.
abbrev pub places : List ℕ → Egress → List ℕ
places hand st = hand ++ (pile st.iovfreeq ++ pile st.outq)

-- Each packet is in one place, the free ones hold no references, and each has room for its pieces.
pub record IsPlaced (hand : List ℕ) (st : Egress) : Type 0 where
  pub outq : IsPlain st.outq
  pub outq_in : st.outq.depth ≤ st.outq.size
  pub resets : st.iovfreeq.has_freeq ≡ true
  pub storage : length st.iovfreeq.queue ≡ st.iovfreeq.size
  pub size : st.iovfreeq.size ≡ buffers
  pub distinct : (q : ℕ) → count q (places hand st) ≡ (if ltb q buffers then 1 else 0)
  pub few : length (places hand st) ≤ buffers
  pub empty :
      (q : ℕ) → 0 < count q (pile st.iovfreeq) → ((st.miovs q).mbufs ≡ []) × ((st.miovs q).len ≡ 0)
  pub fits :
      (p : ℕ)
      → (length (st.miovs p).mbufs ≡ niov (st.miovs p))
        × (niov (st.miovs p) ≤ (st.miovs p).maxiov)
        × ((st.miovs p).maxiov ≤ 10000)
        × (0 < (st.miovs p).maxiov)

-- One reference for the buffer that is being filled.
abbrev pub held : ℕ → ℕ → ℕ
held t q = if q == t then 1 else 0

-- The references to a buffer, of the packets and of the thread that receives into `t`.
abbrev pub users : ℕ → List ℕ → Egress → ℕ → ℕ
users t hand st q = refs st.miovs q (places hand st) + held t q

pub record Counted (t : ℕ) (hand : List ℕ) (st : Egress) : Type 0 where
  pub placed : IsPlaced hand st
  pub counted : IsCounted (users t hand st) st.pool

abbrev pub with_mbufs : Egress → Memory → Egress
with_mbufs st mbufs = record st { pool = record st.pool { mbufs = mbufs } }

-- What changes no reference count changes nothing.
pub Counted-mbufs :
    {t : ℕ} {hand : List ℕ} {st : Egress} (mbufs : Memory)
    → ((q : ℕ) → (mbufs q).refcnt ≡ (st.mbufs q).refcnt)
    → Counted t hand st
    → Counted t hand (with_mbufs st mbufs)
Counted-mbufs mbufs same c = record {
  placed = record {
    outq = c.placed.outq;
    outq_in = c.placed.outq_in;
    resets = c.placed.resets;
    storage = c.placed.storage;
    size = c.placed.size;
    distinct = c.placed.distinct;
    few = c.placed.few;
    empty = c.placed.empty;
    fits = c.placed.fits;
  };
  counted = record {
    valid = c.counted.valid;
    size = c.counted.size;
    refcnts = λ q. same q ∙ c.counted.refcnts q;
    free = c.counted.free;
    inside = c.counted.inside;
  };
}

pub set_start-Counted :
    {t : ℕ} {hand : List ℕ} (st : Egress) (start : ℕ)
    → Counted t hand st
    → Counted t hand (set_start st t start)
set_start-Counted {t} st start c =
    Counted-mbufs (store st.mbufs t (record (st.mbufs t) { start = start }))
      (λ q. elim (Bool-cases (q == t)) [ inl e ↦ rw (e, ==→eq q t e) | inr e ↦ rw e ]) c

-- Packets with the same pieces.
pub Counted-miovs :
    {t : ℕ} {hand : List ℕ} {st : Egress} (miovs : ℕ → Miov)
    → ((p : ℕ)
        → ((miovs p).mbufs ≡ (st.miovs p).mbufs)
          × ((miovs p).iov ≡ (st.miovs p).iov)
          × ((miovs p).maxiov ≡ (st.miovs p).maxiov)
          × ((miovs p).len ≡ (st.miovs p).len))
    → Counted t hand st
    → Counted t hand (record st { miovs = miovs })
Counted-miovs {t} {hand} {st} miovs same c = record {
  placed = record {
    outq = c.placed.outq;
    outq_in = c.placed.outq_in;
    resets = c.placed.resets;
    storage = c.placed.storage;
    size = c.placed.size;
    distinct = c.placed.distinct;
    few = c.placed.few;
    empty = λ q k. ((same q).0 ∙ (c.placed.empty q k).0, (same q).3 ∙ (c.placed.empty q k).1);
    fits = λ p. let (ms, iovs, max, _) = same p in rw (ms, iovs, max) (c.placed.fits p);
  };
  counted =
      IsCounted-same
        (λ q.
          ap (λ n. n + held t q) (refs-same st.miovs miovs q (places hand st) (λ p. (same p).0)))
        c.counted;
}

pub set_left-Counted :
    {t : ℕ} {hand : List ℕ} (st : Egress) (p n : ℕ)
    → Counted t hand st
    → Counted t hand (set_left st p n)
set_left-Counted st p n c =
    Counted-miovs (store st.miovs p (record (st.miovs p) { left = n }))
      (λ q. elim (Bool-cases (q == p)) [
        | inl e ↦ rw (e, ==→eq q p e) (refl, refl, refl, refl)
        | inr e ↦ rw e (refl, refl, refl, refl)
      ])
      c

-- No more references than 256 packets of 10000 pieces can hold, and one.
pub users-lt :
    (t : ℕ) {hand : List ℕ} {st : Egress} (q : ℕ) → IsPlaced hand st → users t hand st q < 2560002
users-lt t {hand} {st} q v =
    let most =
      refs-bound st.miovs q (places hand st)
        (λ p. let (same, room, max, _) = v.fits p in omega (arith, same, room, max)) in
    ground (arith, most, v.few)

-- A packet with a piece of the buffer `t` more.
abbrev grown : Egress → ℕ → ℕ → ℕ → Miov
grown st t p n = record (st.miovs p) {
  iov = (st.miovs p).iov ++ record { iov_base = in_mbuf t (st.mbufs t).start; iov_len = n } ∷ [];
  mbufs = (st.miovs p).mbufs ++ t ∷ [];
  len = (st.miovs p).len + n;
}

abbrev extended : Egress → ℕ → ℕ → ℕ → Egress
extended st t p n = record st {
  pool = record st.pool { mbufs = store st.mbufs t (incref (st.mbufs t)) };
  miovs = store st.miovs p (grown st t p n);
}

module _ {t p : ℕ} (st : Egress) (n : ℕ) (c : Counted t (p ∷ []) st)
    (room : niov (st.miovs p) < (st.miovs p).maxiov) where
  at_hand : count p (places (p ∷ []) st) ≡ 1
  at_hand = ground (arith, c.placed.distinct p)

  references : (q : ℕ) → users t (p ∷ []) (extended st t p n) q ≡ users t (p ∷ []) st q + held t q
  references q = ground (
    arith,
    refs-store st.miovs p (grown st t p n) q (places (p ∷ []) st) at_hand,
    count-append q (st.miovs p).mbufs (t ∷ []),
  )

  fits-grown :
      (q : ℕ)
      → let v = (extended st t p n).miovs q in
        (length v.mbufs ≡ niov v) × (niov v ≤ v.maxiov) × (v.maxiov ≤ 10000) × (0 < v.maxiov)
  fits-grown q = elim (Bool-cases (q == p)) [
    | inl e ↦ rw e (
        ground (
          arith,
          c.placed.fits p,
          length-append (st.miovs p).mbufs (t ∷ []),
          length-append (st.miovs p).iov
              (record { iov_base = in_mbuf t (st.mbufs t).start; iov_len = n } ∷ []),
          room,
        ))
    | inr e ↦ rw e (c.placed.fits q)
  ]

  IsPlaced-extended : IsPlaced (p ∷ []) (extended st t p n)
  IsPlaced-extended = record {
    outq = c.placed.outq;
    outq_in = c.placed.outq_in;
    resets = c.placed.resets;
    storage = c.placed.storage;
    size = c.placed.size;
    distinct = c.placed.distinct;
    few = c.placed.few;
    empty = λ q k. elim (Bool-cases (q == p)) [
      | inl e ↦ absurd (
          ground
            (arith, e, k, c.placed.distinct q, count-append q (pile st.iovfreeq) (pile st.outq)))
      | inr e ↦ rw e (c.placed.empty q k)
    ];
    fits = fits-grown;
  }

  IsCounted-extended : IsCounted (users t (p ∷ []) (extended st t p n)) (extended st t p n).pool
  IsCounted-extended = IsCounted-same references (record {
    valid = c.counted.valid;
    size = c.counted.size;
    refcnts = λ q. ground (arith, c.counted.refcnts q, users-lt t q c.placed);
    free = λ q. ground (arith, c.counted.free q, c.counted.free t);
    inside = λ q k. ground (arith, c.counted.inside q, k);
  })

  pieced-Counted : Counted t (p ∷ []) (pieced st t p n)
  pieced-Counted =
      set_start-Counted (extended st t p n) ((st.mbufs t).start + n)
        (record { placed = IsPlaced-extended; counted = IsCounted-extended })

pub take_piece-Counted :
    {t p : ℕ} (st : Egress) (n : ℕ)
    → Counted t (p ∷ []) st
    → Whenever (Counted t (p ∷ [])) (take_piece st t p n)
unfolding take_piece
take_piece-Counted {t} {p} st n c =
    elim (Bool-cases (ltb (niov (st.miovs p)) (st.miovs p).maxiov)) [
      | inl e ↦
          (let room = ltb→lt (niov (st.miovs p)) (st.miovs p).maxiov e in
            rw (take_piece_lem st t p n room) (pieced-Counted st n c room))
      | inr e ↦ rw e tt
    ]
