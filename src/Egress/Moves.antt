-- ===== src/Egress/Moves.antt =====
-- How the steps of add_to_inner_packet of src/iptfs.c change the packets: a length is learned, a piece
-- is added, a packet is finished.
use iptfs.Prelude.{
  ℕ, ◌+◌, ◌-◌, ◌≤◌, ◌<◌, ◌≡◌, ◌≢◌, refl, ap, ap₂, ◌∙◌, sym, List, [], ◌∷◌, ◌++◌, map, length,
  length-append, append-inj, subst, count, count-append, Option, none, some, ◌==◌, arith, ==_refl,
  ne→==, Bool-cases, inl, inr, ==→eq, map-ext_on,
}
use iptfs.Iovec.{slice, in_mbuf}
use iptfs.Mbuf.{mbuf_len, mbuf_bytes}
use iptfs.Miov.{niov}
use iptfs.Ingress.Stream.{length-slice, mbuf_bytes-advance}
use iptfs.Egress.Steps.{len-pieced}
use iptfs.Egress.{Egress, set_left}
use iptfs.Egress.Pieces.{
  pile, content, pieced, finished, content-pieced, content-pieced_ne, content-set_left,
  spaces-pieced, pile-finished, IsPlain-finished,
}
use iptfs.Egress.Carry.{pushed, all_miovs, IsValid, Delivered, Leaves}

-- A free or a finished packet is not the one at hand.
apart :
    {st : Egress} {p : ℕ} (q : ℕ)
    → IsValid st (some p)
    → 0 < count q (pile st.iovfreeq) + count q (pile st.outq)
    → q ≢ p
apart {st} {p} q v k =
    λ e. ground (arith, v.distinct q, count-append q (pile st.iovfreeq) (pile st.outq))

maxiov-set_left :
    (st : Egress) (p n q : ℕ) → ((set_left st p n).miovs q).maxiov ≡ (st.miovs q).maxiov
maxiov-set_left st p n q = elim (Bool-cases (q == p)) [ inl e ↦ rw (e, ==→eq q p e) | inr e ↦ rw e ]

maxiov-pieced :
    (st : Egress) (t p n q : ℕ) → ((pieced st t p n).miovs q).maxiov ≡ (st.miovs q).maxiov
maxiov-pieced st t p n q = elim (Bool-cases (q == p)) [ inl e ↦ rw (e, ==→eq q p e) | inr e ↦ rw e ]

pub niov-set_left : (st : Egress) (p n : ℕ) → niov ((set_left st p n).miovs p) ≡ niov (st.miovs p)
niov-set_left st p n = rw (==_refl p) refl

module _ {st : Egress} {p : ℕ} (v : IsValid st (some p)) (n : ℕ) where
  pub IsValid-set_left : IsValid (set_left st p n) (some p)
  IsValid-set_left = record {
    outq = v.outq;
    distinct = v.distinct;
    fresh = λ q k. rw (ne→== q p (apart q v (omega arith))) (v.fresh q k);
  }

  -- What happens after the length of the packet at hand has been noted.
  pub Delivered-set_left :
      {t : ℕ} {out : List (List ℕ)} {part : List ℕ} {left : ℕ} {m' : Option ℕ} {st' : Egress}
      → Delivered (set_left st p n) t (some p) out part left m' st'
      → Delivered st t (some p) out part left m' st'
  Delivered-set_left {out = out} d = record {
    valid = d.valid;
    holds = d.holds;
    outputs =
        d.outputs
        ∙ ap (pushed out) (
            map-ext_on (content (set_left st p n)) (content st) (pile st.outq)
              (λ q k. content-set_left st p n q));
    own = d.own;
    same_spaces = d.same_spaces;
    others = d.others;
    few_pieces = omega (arith, d.few_pieces, niov-set_left st p n);
    maxiov = λ q. d.maxiov q ∙ maxiov-set_left st p n q;
    depth = d.depth;
    size = d.size;
  }

  -- The rest of the buffer is added to the packet at hand, which then lacks `n` bytes.
  pub Delivered-continued :
      {t : ℕ} {acc : List ℕ}
      → content st p ≡ acc
      → (st.miovs p).len ≡ length acc
      → length (mbuf_bytes (st.mbufs t)) ≡ mbuf_len (st.mbufs t)
      → mbuf_len (st.mbufs t) ≢ 0
      → Delivered st t
          (some p)
          []
          (acc ++ mbuf_bytes (st.mbufs t))
          n
          (some p)
          (set_left (pieced st t p (mbuf_len (st.mbufs t))) p n)
  Delivered-continued {t} {acc} holds len inside busy = record {
    valid = record {
      outq = v.outq;
      distinct = v.distinct;
      fresh = λ q k. rw (ne→== q p (apart q v (omega arith))) (v.fresh q k);
    };
    holds = (
      content-set_left st' p n p
          ∙ content-pieced st t p (mbuf_len (st.mbufs t))
          ∙ ap (λ l. l ++ mbuf_bytes (st.mbufs t)) holds,
      rw (==_refl p) (omega (arith, len, inside, length-append acc (mbuf_bytes (st.mbufs t)))),
      λ _. rw (==_refl p) refl,
      λ e.
          absurd
            (omega (arith, busy, inside, length-append acc (mbuf_bytes (st.mbufs t)), ap length e)),
    );
    outputs = map-ext_on (content (set_left st' p n)) (content st) (pile st.outq) (λ q k.
        content-set_left st' p n q
        ∙ content-pieced_ne st t p (mbuf_len (st.mbufs t)) q (apart q v (omega arith)));
    own = λ q. refl;
    same_spaces = spaces-pieced st t p (mbuf_len (st.mbufs t));
    others = λ q ne. rw (ne→== q t ne);
    few_pieces = rw (==_refl p) (
        omega (
          arith,
          length-append (st.miovs p).iov (
              record { iov_base = in_mbuf t (st.mbufs t).start; iov_len = mbuf_len (st.mbufs t) }
              ∷ []),
        ));
    maxiov = λ q. maxiov-set_left st' p n q ∙ maxiov-pieced st t p (mbuf_len (st.mbufs t)) q;
    depth = omega arith;
    size = refl;
  }
    where
      st' : Egress
      st' = pieced st t p (mbuf_len (st.mbufs t))

-- The packet at hand is finished with the next bytes of the buffer.
pub Delivered-finished :
    {st : Egress} {t p : ℕ} {acc : List ℕ}
    → IsValid st (some p)
    → st.outq.depth < st.outq.size
    → content st p ≡ acc
    → Delivered st t
        (some p)
        ((acc ++ slice (st.mbufs t).start (st.miovs p).left (st.mbufs t).space) ∷ [])
        []
        0
        none
        (finished st t p)
Delivered-finished {st} {t} {p} {acc} v free holds = record {
  valid = record {
    outq = IsPlain-finished st t p v.outq free;
    distinct = λ q. omega (arith, own q, v.distinct q);
    fresh = λ q k. rw (ne→== q p (apart q v (omega arith))) (v.fresh q k);
  };
  holds = refl;
  outputs =
      ap (map (content (finished st t p))) (pile-finished st t p v.outq free)
      ∙ ap₂ ◌∷◌
          (content-set_left st' p 0 p
            ∙ content-pieced st t p left
            ∙ ap (λ l. l ++ slice (st.mbufs t).start left (st.mbufs t).space) holds)
          (map-ext_on (content (set_left st' p 0)) (content st) (pile st.outq) (λ q k.
            content-set_left st' p 0 q
            ∙ content-pieced_ne st t p left q (apart q v (omega arith))));
  own = own;
  same_spaces = spaces-pieced st t p left;
  others = λ q ne. rw (ne→== q t ne);
  few_pieces = omega arith;
  maxiov = λ q. maxiov-set_left st' p 0 q ∙ maxiov-pieced st t p left q;
  depth = omega arith;
  size = refl;
}
  where
    left : ℕ
    left = (st.miovs p).left

    st' : Egress
    st' = pieced st t p left

    own : (q : ℕ) → count q (all_miovs (finished st t p) none) ≡ count q (all_miovs st (some p))
    own q = ground (
      arith,
      count-append q (pile st.iovfreeq) (pile (finished st t p).outq),
      count-append q (pile st.iovfreeq) (pile st.outq),
      ap (count q) (pile-finished st t p v.outq free),
    )

-- The next bytes of the buffer end the packet at hand, of which `acc` has come.
pub Leaves-finished :
    {st : Egress} {t p : ℕ} {acc rest : List ℕ} (piece : List ℕ)
    → IsValid st (some p)
    → st.outq.depth < st.outq.size
    → content st p ≡ acc
    → ((st.mbufs t).start ≤ (st.mbufs t).end) × ((st.mbufs t).end ≤ length (st.mbufs t).space)
    → (st.miovs p).left ≡ length piece
    → mbuf_bytes (st.mbufs t) ≡ piece ++ rest
    → length piece ≤ mbuf_len (st.mbufs t)
    → Leaves st t p (acc ++ piece) (length piece) rest (finished st t p)
Leaves-finished {st} {t} {p} {acc} {rest} piece v free holds inside left at_front fits =
    let tbuf = st.mbufs t in
    let (front, back) =
      append-inj piece (slice tbuf.start (length piece) tbuf.space)
        (sym (length-slice tbuf (length piece) inside.1 fits))
        (sym at_front ∙ mbuf_bytes-advance tbuf (length piece) fits) in
    let same : slice tbuf.start (st.miovs p).left tbuf.space ≡ piece =
      ap (λ k. slice tbuf.start k tbuf.space) left ∙ sym front in
    record {
      delivered =
          subst (λ l. Delivered st t (some p) ((acc ++ l) ∷ []) [] 0 none (finished st t p)) same
            (Delivered-finished v free holds);
      freeq = refl;
      bytes =
          rw (==_refl t)
            (ap (λ k. mbuf_bytes (record tbuf { start = tbuf.start + k })) left ∙ sym back);
      len = len-pieced st t p (st.miovs p).left ∙ ap (λ k. mbuf_len (st.mbufs t) - k) left;
      inside = (rw (==_refl t) (omega (arith, left, fits, inside)), rw (==_refl t) inside.1);
    }
