-- ===== src/Egress/Counting.antt =====
-- add_to_inner_packet of src/iptfs.c keeps the reference counts exact.
use iptfs.Prelude.{
  ℕ, zero, suc, ◌+◌, ◌-◌, ◌%◌, ◌≡◌, Bool, true, false, not, Bool-cases, inl, inr, [], ◌∷◌, set, ltb,
  leb, ◌==◌, if◌then◌else◌, u16, Option, none, some, Outcome, ok, stop, exited, aborted, guard,
  ◌>>=◌, ◌>>◌, Whenever, Whenever-bind, Whenever-guard, Whenever-if, Whenever-any, ◌||◌, ==→ne,
}
use iptfs.Bytes.{get8, get16}
use iptfs.Mbuf.{mbuf_len}
use iptfs.Mqueue.Stack.{ptrs}
use iptfs.Miov.{Miov, Miovq, Pool, miovq_pop, miovq_push}
use iptfs.Egress.{
  Egress, Next, returns, recurse, set_start, set_left, take_piece, continue_packet, finish_packet,
  rest_of_packet, start_packet, known_length, packet_length, high_nibble, getiplen, spanning_packet,
  continued_packet, split_payload, inner_packet, add_step, add_to_inner_packet,
}
use iptfs.Egress.Counted.{Counted, set_start-Counted, set_left-Counted, take_piece-Counted}
use iptfs.Egress.Rearranged.{popped-Counted, pushed-Counted}
use iptfs.Egress.Progress.{after_step}

inner_packet-Counted :
    {t : ℕ} (st : Egress) (m : Option ℕ)
    → Counted t (ptrs m) st
    → Whenever (λ (p, st'). Counted t (p ∷ []) st') (inner_packet st m)
unfolding inner_packet miovq_pop
inner_packet-Counted st (some p) c = c
inner_packet-Counted st none c = elim (Bool-cases (st.iovfreeq.depth == 0)) [
  | inl e ↦ rw e tt
  | inr e ↦ rw e (popped-Counted c (==→ne st.iovfreeq.depth 0 e))
]

-- What miovq_push returns, put into the state.
abbrev After : ℕ → Egress → Pool × (ℕ → Miov) × Miovq → Type 0
After t st (pool', miovs', outq') =
    Counted t [] (record st { pool = pool'; miovs = miovs'; outq = outq' })

push_finished-Counted :
    {t p : ℕ} (st : Egress)
    → Counted t (p ∷ []) st
    → Whenever (After t st) (miovq_push st.pool st.miovs st.outq p)
unfolding miovq_push
push_finished-Counted {t} {p} st c = elim (Bool-cases (st.outq.depth == st.outq.size)) [
  | inl e ↦ rw (c.placed.outq.plain, e) tt
  | inr e ↦
      (let outq : Miovq = record st.outq {
        queue = set st.outq.queue st.outq.depth p;
        depth = st.outq.depth + 1;
      } in
        let pushed : miovq_push st.pool st.miovs st.outq p ≡ ok (st.pool, st.miovs, outq) =
          rw (c.placed.outq.plain, e) in
        rw pushed (pushed-Counted c (==→ne st.outq.depth st.outq.size e)))
]

finish_packet-Counted :
    {t p : ℕ} (st : Egress) → Counted t (p ∷ []) st → Whenever (Counted t []) (finish_packet st t p)
unfolding finish_packet
finish_packet-Counted {t} {p} st c =
    Whenever-bind (Counted t (p ∷ [])) (Counted t []) (take_piece st t p (st.miovs p).left) _
      (take_piece-Counted st (st.miovs p).left c)
      λ st' c'.
        Whenever-bind (After t (set_left st' p 0)) (Counted t [])
          (miovq_push (set_left st' p 0).pool (set_left st' p 0).miovs (set_left st' p 0).outq p) _
          (push_finished-Counted (set_left st' p 0) (set_left-Counted st' p 0 c')) λ _ c2. c2

-- The counts are exact for the packet that is returned, if any.
abbrev pub CountedNext : ℕ → Next → Type 0
CountedNext t (returns m st) = Counted t (ptrs m) st
CountedNext t (recurse st) = Counted t [] st

continue_packet-Counted :
    {t p : ℕ} (st : Egress) (tlen : ℕ)
    → Counted t (p ∷ []) st
    → Whenever (CountedNext t) (continue_packet st t p tlen)
unfolding continue_packet
continue_packet-Counted {t} {p} st tlen c =
    Whenever-bind (Counted t (p ∷ [])) (CountedNext t) (take_piece st t p tlen) _
      (take_piece-Counted st tlen c)
      λ st' c'.
        Whenever-guard (CountedNext t) (mbuf_len (st'.mbufs t) == 0) aborted
          (ok (returns (some p) (set_left st' p ((st'.miovs p).left - tlen))))
          (set_left-Counted st' p ((st'.miovs p).left - tlen) c')

rest_of_packet-Counted :
    {t p : ℕ} (st : Egress) (tlen : ℕ)
    → Counted t (p ∷ []) st
    → Whenever (CountedNext t) (rest_of_packet st t p tlen)
unfolding rest_of_packet
rest_of_packet-Counted {t} {p} st tlen c =
    Whenever-if (CountedNext t) (ltb tlen (st.miovs p).left) (continue_packet st t p tlen) _
      (continue_packet-Counted st tlen c)
      (Whenever-bind (Counted t []) (CountedNext t) (finish_packet st t p) _
        (finish_packet-Counted st c)
        λ st' c'.
          Whenever-if (CountedNext t) (mbuf_len (st'.mbufs t) == 0) (ok (returns none st'))
            (ok (recurse st')) c' c')

start_packet-Counted :
    {t p : ℕ} (st : Egress) (offset tlen : ℕ)
    → Counted t (p ∷ []) st
    → Whenever (CountedNext t) (start_packet st t p offset tlen)
unfolding start_packet
start_packet-Counted {t} {p} st offset tlen c =
    let tbuf = st.mbufs t in
    let st1 = set_start st t (tbuf.start + offset) in
    let tlen1 = tlen - offset in
    let iplen = packet_length tbuf.space (tbuf.start + offset) tlen1 in
    let c1 : Counted t (p ∷ []) st1 = set_start-Counted st (tbuf.start + offset) c in
    let over : Counted t (p ∷ []) (set_start st t tbuf.end) = set_start-Counted st tbuf.end c in
    let skip : Outcome Next = ok (returns (some p) (set_start st t tbuf.end)) in
    let short : Outcome Next = (do
      st' ← take_piece st1 t p tlen1
      guard (mbuf_len (st'.mbufs t) == 0) aborted
      ok (returns (some p) st')) in
    let known = rest_of_packet (set_left st1 p iplen) t p tlen1 in
    let by_length = (if iplen == 0 then short else known) in
    Whenever-if (CountedNext t) (leb tlen offset) skip _ over (
      Whenever-if (CountedNext t) (high_nibble (get8 tbuf.space (tbuf.start + offset)) == 0) skip
        by_length over
        (Whenever-if (CountedNext t) (iplen == 0) short known
          (Whenever-bind (Counted t (p ∷ [])) (CountedNext t) (take_piece st1 t p tlen1) _
            (take_piece-Counted st1 tlen1 c1)
            λ st' c'.
              Whenever-guard (CountedNext t) (mbuf_len (st'.mbufs t) == 0) aborted
                (ok (returns (some p) st')) c')
          (rest_of_packet-Counted (set_left st1 p iplen) tlen1 (set_left-Counted st1 p iplen c1))))

known_length-Counted :
    {t p : ℕ} (st : Egress)
    → Counted t (p ∷ []) st
    → Whenever (Counted t (p ∷ [])) (known_length st t p)
unfolding known_length
known_length-Counted {t} {p} st c =
    Whenever-if (Counted t (p ∷ [])) ((st.miovs p).left == 0) _ (ok st)
      (Whenever-bind (λ _. Unit {0}) (Counted t (p ∷ []))
        (getiplen st.mbufs (st.miovs p) (st.mbufs t)) _
        (Whenever-any (getiplen st.mbufs (st.miovs p) (st.mbufs t)))
        λ n _. set_left-Counted st p n c)
      c

spanning_packet-Counted :
    {t p : ℕ} (st : Egress) (tlen : ℕ)
    → Counted t (p ∷ []) st
    → Whenever (CountedNext t) (spanning_packet st t p tlen)
unfolding spanning_packet
spanning_packet-Counted {t} {p} st tlen c =
    Whenever-bind (Counted t (p ∷ [])) (CountedNext t) (known_length st t p) _
      (known_length-Counted st c)
      λ st' c'.
        Whenever-if (CountedNext t) (ltb tlen (st'.miovs p).left) (continue_packet st' t p tlen) _
          (continue_packet-Counted st' tlen c')
          (Whenever-bind (Counted t []) (CountedNext t) (finish_packet st' t p) _
            (finish_packet-Counted st' c') λ st1 c1. set_start-Counted st1 (st1.mbufs t).end c1)

continued_packet-Counted :
    {t p : ℕ} (st : Egress) (offset : ℕ)
    → Counted t (p ∷ []) st
    → Whenever (CountedNext t) (continued_packet st t p offset)
unfolding continued_packet
continued_packet-Counted {t} {p} st offset c =
    Whenever-bind (Counted t (p ∷ [])) (CountedNext t) (known_length st t p) _
      (known_length-Counted st c)
      λ st' c'.
        Whenever-guard (CountedNext t) ((st'.miovs p).left == offset) aborted
          (rest_of_packet st' t p offset) (rest_of_packet-Counted st' offset c')

split_payload-Counted :
    {t p : ℕ} (st : Egress) (offset : ℕ)
    → Counted t (p ∷ []) st
    → Whenever (CountedNext t) (split_payload st t p offset)
unfolding split_payload
split_payload-Counted {t} {p} st offset c =
    let tlen = mbuf_len (st.mbufs t) % u16 in
    let spans = ltb tlen offset in
    Whenever-guard (CountedNext t) (mbuf_len (st.mbufs t) == tlen) exited _ (
      Whenever-if (CountedNext t) ((st.miovs p).len == 0) (start_packet st t p offset tlen) _
        (start_packet-Counted st offset tlen c)
        (Whenever-if (CountedNext t) spans (spanning_packet st t p tlen)
          (continued_packet st t p offset) (spanning_packet-Counted st tlen c)
          (continued_packet-Counted st offset c)))

pub add_step-Counted :
    {t : ℕ} (st : Egress) (new : Bool) (m : Option ℕ)
    → Counted t (ptrs m) st
    → Whenever (CountedNext t) (add_step st t new m)
unfolding add_step
add_step-Counted {t} st new m c =
    let tbuf = st.mbufs t in
    let ltlen = mbuf_len tbuf in
    let offset = (if new then get16 tbuf.space (tbuf.start + 6) else 0) in
    let st1 = (if new then set_start st t (tbuf.start + 8) else st) in
    let c1 : Counted t (ptrs m) st1 =
      elim new as (λ b. Counted t (ptrs m) (if b then set_start st t (tbuf.start + 8) else st)) [
        | true ↦ set_start-Counted st (tbuf.start + 8) c
        | false ↦ c
      ] in
    let rest = inner_packet st1 m >>= λ (p, st2). split_payload st2 t p offset in
    Whenever-guard (CountedNext t) (not (ltlen == 0)) exited
      (guard (not new || ltb 8 ltlen) aborted >> rest)
      (Whenever-guard (CountedNext t) (not new || ltb 8 ltlen) aborted rest (
        Whenever-bind (λ (p, st'). Counted t (p ∷ []) st') (CountedNext t) (inner_packet st1 m) _
          (inner_packet-Counted st1 m c1) λ (p, st2) c2. split_payload-Counted st2 offset c2))

after_step-Counted :
    (k t : ℕ) (o : Outcome Next)
    → Whenever (CountedNext t) o
    → ((st : Egress)
        → Counted t [] st
        → Whenever (λ (m, st'). Counted t (ptrs m) st') (add_to_inner_packet k st t false none))
    → Whenever (λ (m, st'). Counted t (ptrs m) st') (after_step k t o)
after_step-Counted k t (stop e) h ih = tt
after_step-Counted k t (ok (returns m st)) h ih = h
after_step-Counted k t (ok (recurse st)) h ih = ih st h

-- If add_to_inner_packet returns, the reference counts that were exact still are, for the packets
-- at hand, free and finished, and the buffer that is being cut.
pub add_to_inner_packet-Counted :
    (k t : ℕ) (st : Egress) (new : Bool) (m : Option ℕ)
    → Counted t (ptrs m) st
    → Whenever (λ (m', st'). Counted t (ptrs m') st') (add_to_inner_packet k st t new m)
unfolding add_to_inner_packet
add_to_inner_packet-Counted zero t st new m c = tt
add_to_inner_packet-Counted (suc k) t st new m c =
    after_step-Counted k t (add_step st t new m) (add_step-Counted st new m c)
      λ st' c'. add_to_inner_packet-Counted k t st' false none c'
