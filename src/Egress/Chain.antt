-- ===== src/Egress/Chain.antt =====
-- How what add_to_inner_packet of src/iptfs.c delivers in several steps adds up.
use iptfs.Prelude.{
  ℕ, suc, ◌+◌, ◌≤◌, ◌<◌, ◌≡◌, ◌≢◌, refl, ap, ◌∙◌, sym, subst, Bool, false, List, [], ◌∷◌, ◌++◌, map,
  length, count, Option, none, some, ok, stop, arith, ne→==,
}
use iptfs.Iovec.{gather}
use iptfs.Mbuf.{Mbuf, Memory, mbuf_len}
use iptfs.Miov.{Miov, Miovq}
use iptfs.Packing.{Packed, Packs, none_left, no_room, goes_on, fits}
use iptfs.Ingress.{spaces}
use iptfs.Ingress.Stream.{spaces-advance}
use iptfs.Egress.{
  set_start, Egress, returns, recurse, inner_packet, split_payload, add_step, add_to_inner_packet,
}
use iptfs.Egress.Progress.{after_step}
use iptfs.Egress.Pieces.{pile, content, inner_packet_lem}
use iptfs.Egress.Carry.{Fresh, pushed, all_miovs, IsValid, HasRoom, Delivered, pieces}

-- The next free packet, at hand.
pub record Taken (st : Egress) (p : ℕ) (st' : Egress) : Type 0 where
  pub valid : IsValid st' (some p)
  pub clear : Fresh (st'.miovs p)
  pub same : all_miovs st' (some p) ≡ all_miovs st none
  pub supply : length (pile st'.iovfreeq) + 1 ≡ length (pile st.iovfreeq)
  pub mbufs : st'.mbufs ≡ st.mbufs
  pub miovs : st'.miovs ≡ st.miovs
  pub outq : st'.outq ≡ st.outq

pub take_free :
    (st : Egress)
    → IsValid st none
    → 0 < length (pile st.iovfreeq)
    → (p : ℕ) × (st' : Egress) × (inner_packet st none ≡ ok (p, st')) × Taken st p st'
take_free st v more =
    let (p, fq, got, top) = inner_packet_lem st none (λ e. absurd (omega (arith, ap length e))) in
    let st' = record st { iovfreeq = fq } in
    let same : all_miovs st' (some p) ≡ all_miovs st none = ap (λ l. l ++ pile st.outq) top in
    (
      p,
      st',
      got,
      record {
        valid = record {
          outq = v.outq;
          distinct = λ q. rw same (v.distinct q);
          fresh = λ q k. v.fresh q (ground (arith, ap (count q) top));
        };
        clear = v.fresh p (ground (arith, ap (count p) top));
        same = same;
        supply = omega (arith, ap length top);
        mbufs = refl;
        miovs = refl;
        outq = refl;
      },
    )

-- What is delivered once a free packet has been taken, seen from before.
pub Delivered-Taken :
    {st : Egress} {t p : ℕ} {st1 : Egress} {out : List (List ℕ)} {part : List ℕ} {left : ℕ}
    {m' : Option ℕ} {st' : Egress}
    → Taken st p st1
    → Delivered st1 t (some p) out part left m' st'
    → Delivered st t none out part left m' st'
Delivered-Taken {st} {st1 = st1} {out = out} k b = record {
  valid = b.valid;
  holds = b.holds;
  outputs = b.outputs ∙ ap (pushed out) outs;
  own = λ q. b.own q ∙ ap (count q) k.same;
  same_spaces = b.same_spaces ∙ ap spaces k.mbufs;
  others = λ q ne. b.others q ne ∙ ap (λ (mem : Memory). mem q) k.mbufs;
  few_pieces = omega (arith, b.few_pieces, ap length k.clear.0);
  maxiov = λ q. b.maxiov q ∙ ap (λ (f : ℕ → Miov). (f q).maxiov) k.miovs;
  depth = omega (arith, b.depth, ap (λ (q : Miovq). q.depth) k.outq);
  size = b.size ∙ ap (λ (q : Miovq). q.size) k.outq;
}
  where
    outs : map (content st1) (pile st1.outq) ≡ map (content st) (pile st.outq)
    outs =
        ap (λ (mem : Memory). map (λ q. gather (spaces mem) [] (st1.miovs q).iov) (pile st1.outq))
          k.mbufs
        ∙ ap (λ (f : ℕ → Miov). map (λ q. gather (spaces st.mbufs) [] (f q).iov) (pile st1.outq))
            k.miovs
        ∙ ap (λ (q : Miovq). map (content st) (pile q)) k.outq

pub HasRoom-Taken :
    {st : Egress} {t n p : ℕ} {st1 : Egress}
    → Taken st p st1
    → HasRoom st t n
    → n < length (pile st.iovfreeq)
    → HasRoom st1 t n
HasRoom-Taken {st} {t} k h supply =
    let same = ap (λ (mem : Memory). mem t) k.mbufs in
    record {
      inside =
          subst (λ (b : Mbuf). (b.start ≤ b.end) × (b.end ≤ length b.space)) (sym same) h.inside;
      small = omega (arith, h.small, ap mbuf_len same);
      room =
          omega
            (arith, h.room, ap (λ (q : Miovq). q.depth) k.outq, ap (λ (q : Miovq). q.size) k.outq);
      supply = omega (arith, k.supply, supply);
    }

-- One packet, and then what the rest of the payload brings.
pub Delivered-then :
    {st : Egress} {t p : ℕ} {packet : List ℕ} {st1 : Egress} {out : List (List ℕ)} {part : List ℕ}
    {left : ℕ} {m' : Option ℕ} {st' : Egress}
    → Delivered st t (some p) (packet ∷ []) [] 0 none st1
    → Delivered st1 t none out part left m' st'
    → Delivered st t (some p) (packet ∷ out) part left m' st'
Delivered-then {out = out} a b = record {
  valid = b.valid;
  holds = b.holds;
  outputs = b.outputs ∙ ap (pushed out) a.outputs;
  own = λ q. b.own q ∙ a.own q;
  same_spaces = b.same_spaces ∙ a.same_spaces;
  others = λ q ne. b.others q ne ∙ a.others q ne;
  few_pieces = omega (arith, b.few_pieces);
  maxiov = λ q. b.maxiov q ∙ a.maxiov q;
  depth = omega (arith, b.depth, a.depth);
  size = b.size ∙ a.size;
}

pieces-set_start :
    (st : Egress) (t n : ℕ) (m : Option ℕ) → pieces (set_start st t n) m ≡ pieces st m
pieces-set_start st t n none = refl
pieces-set_start st t n (some p) = refl

-- The start of the buffer has moved.
pub Delivered-set_start :
    (st : Egress) (t n : ℕ) {m : Option ℕ} {out : List (List ℕ)} {part : List ℕ} {left : ℕ}
    {m' : Option ℕ} {st' : Egress}
    → Delivered (set_start st t n) t m out part left m' st'
    → Delivered st t m out part left m' st'
Delivered-set_start st t n {m} {out} b = record {
  valid = b.valid;
  holds = b.holds;
  outputs =
      b.outputs
      ∙ ap (λ s. pushed out (map (λ q. gather s [] (st.miovs q).iov) (pile st.outq))) advance;
  own = b.own;
  same_spaces = b.same_spaces ∙ advance;
  others = λ q ne. b.others q ne ∙ rw (ne→== q t ne);
  few_pieces = omega (arith, b.few_pieces, pieces-set_start st t n m);
  maxiov = b.maxiov;
  depth = b.depth;
  size = b.size;
}
  where
    advance : spaces (set_start st t n).mbufs ≡ spaces st.mbufs
    advance = spaces-advance st.mbufs t n

-- Without a packet at hand it does not matter how many bytes one would lack.
pub Delivered-none :
    {st : Egress} {t : ℕ} {m : Option ℕ} {out : List (List ℕ)} {part : List ℕ} {left : ℕ}
    {st' : Egress} (left' : ℕ)
    → Delivered st t m out part left none st'
    → Delivered st t m out part left' none st'
Delivered-none left' d = record {
  valid = d.valid;
  holds = d.holds;
  outputs = d.outputs;
  own = d.own;
  same_spaces = d.same_spaces;
  others = d.others;
  few_pieces = d.few_pieces;
  maxiov = d.maxiov;
  depth = d.depth;
  size = d.size;
}

-- Nothing is in an empty payload.
pub Packs-zero :
    {n : ℕ} {ps : List (List ℕ)} {r : Packed}
    → Packs n ps r
    → n ≡ 0
    → (r.whole ≡ []) × (r.part ≡ [])
Packs-zero (none_left n) e = (refl, refl)
Packs-zero (no_room n p ps h) e = (refl, refl)
Packs-zero (goes_on n p ps h more) e = absurd (omega arith)
Packs-zero (fits n p ps r h whole rest) e = absurd (omega arith)

-- A call of add_to_inner_packet is a step of it and what follows.
pub unfold_call :
    (k : ℕ) (st : Egress) (t : ℕ) (new : Bool) (m : Option ℕ)
    → add_to_inner_packet (suc k) st t new m ≡ after_step k t (add_step st t new m)
unfolding add_to_inner_packet
unfold_call k st t new m =
    elim (add_step st t new m) as (λ o. after_step k t o ≡ after_step k t o) [
      | ok (returns m' st') ↦ refl
      | ok (recurse st') ↦ refl
      | stop e ↦ refl
    ]

-- The call on the rest of the payload.
pub resume_lem :
    (k : ℕ) (st1 : Egress) (t p2 : ℕ) (st2 : Egress)
    → mbuf_len (st1.mbufs t) ≢ 0
    → inner_packet st1 none ≡ ok (p2, st2)
    → add_to_inner_packet (suc k) st1 t false none ≡ after_step k t (split_payload st2 t p2 0)
unfolding add_step
resume_lem k st1 t p2 st2 busy got =
    unfold_call k st1 t false none ∙ rw (ne→== (mbuf_len (st1.mbufs t)) 0 busy, got)
