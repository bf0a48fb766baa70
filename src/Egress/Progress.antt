-- ===== src/Egress/Progress.antt =====
-- add_to_inner_packet of src/iptfs.c ends: each call of itself is on a shorter rest of the buffer.
use iptfs.Prelude.{
  ℕ, zero, suc, ◌+◌, ◌-◌, ◌%◌, ◌≤◌, ◌<◌, ◌≡◌, ◌≢◌, ◌⊎◌, inl, inr, Bool, true, false, Bool-cases,
  not, Option, none, some, ltb, ◌==◌, u16, Outcome, Stop, ok, stop, exited, aborted, starved, guard,
  ◌>>=◌, ◌>>◌, get_or, arith, ==→ne, ==_refl,
}
use iptfs.Bytes.{get16}
use iptfs.Mbuf.{Mbuf, mbuf_len}
use iptfs.Miov.{miovq_pop, miovq_push}
use iptfs.Egress.{
  Egress, Next, returns, recurse, set_start, set_left, take_piece, continue_packet, finish_packet,
  rest_of_packet, start_packet, known_length, packet_length, packet_length, spanning_packet,
  continued_packet, split_payload, inner_packet, add_step, add_to_inner_packet,
}
use iptfs.Egress.Aborts.{known_length_aborts, known_length_same}

-- A step that ends in a call of itself has shortened the buffer.
abbrev Shorter : Mbuf → ℕ → Outcome Next → Type 0
Shorter tbuf t (stop e) = e ≢ starved
Shorter tbuf t (ok (returns m st)) = Unit {0}
Shorter tbuf t (ok (recurse st)) =
    (mbuf_len (st.mbufs t) < mbuf_len tbuf) × (st.outq.has_freeq ≡ false)

abbrev Finished : Egress → ℕ → ℕ → Outcome Egress → Type 0
Finished st t n (stop e) = e ≢ starved
Finished st t n (ok st') =
    (mbuf_len (st'.mbufs t) ≡ mbuf_len (st.mbufs t) - n) × (st'.outq.has_freeq ≡ false)

take_piece-Finished :
    (st : Egress) (t m n : ℕ) → st.outq.has_freeq ≡ false → Finished st t n (take_piece st t m n)
unfolding take_piece
take_piece-Finished st t m n h = ground arith

finish_packet-Finished :
    (st : Egress) (t m : ℕ)
    → st.outq.has_freeq ≡ false
    → Finished st t (st.miovs m).left (finish_packet st t m)
unfolding finish_packet miovq_push
finish_packet-Finished st t m h = ground arith

continue_packet-Shorter :
    (st : Egress) (t m tlen : ℕ) → Shorter (st.mbufs t) t (continue_packet st t m tlen)
unfolding continue_packet
continue_packet-Shorter st t m tlen = ground arith

rest_of_packet-Shorter :
    (st : Egress) (t m tlen : ℕ)
    → st.outq.has_freeq ≡ false
    → (st.miovs m).left ≢ 0
    → Shorter (st.mbufs t) t (rest_of_packet st t m tlen)
unfolding rest_of_packet
rest_of_packet-Shorter st t m tlen h known =
    ground (arith, finish_packet-Finished st t m h, continue_packet-Shorter st t m tlen)

Shorter-weaken :
    (a b : Mbuf) (t : ℕ) (o : Outcome Next)
    → mbuf_len a ≤ mbuf_len b
    → Shorter a t o
    → Shorter b t o
Shorter-weaken a b t (stop e) le h = h
Shorter-weaken a b t (ok (returns m st)) le h = h
Shorter-weaken a b t (ok (recurse st)) le (lt, same) = (omega arith, same)

start_len :
    (st : Egress) (t n : ℕ)
    → mbuf_len ((set_start st t ((st.mbufs t).start + n)).mbufs t) ≤ mbuf_len (st.mbufs t)
start_len st t n = rw (==_refl t) (omega arith)

start_packet-Shorter :
    (st : Egress) (t m offset tlen : ℕ)
    → st.outq.has_freeq ≡ false
    → Shorter (st.mbufs t) t (start_packet st t m offset tlen)
unfolding start_packet take_piece
start_packet-Shorter st t m offset tlen h =
    let st1 = set_start st t ((st.mbufs t).start + offset) in
    let iplen = packet_length (st.mbufs t).space ((st.mbufs t).start + offset) (tlen - offset) in
    let st2 = set_left st1 m iplen in
    let more : iplen ≢ 0 → Shorter (st.mbufs t) t (rest_of_packet st2 t m (tlen - offset)) =
      λ known.
        Shorter-weaken (st1.mbufs t) (st.mbufs t) t (rest_of_packet st2 t m (tlen - offset))
          (start_len st t offset)
          (rest_of_packet-Shorter st2 t m (tlen - offset) h (rw (==_refl m) known)) in
    ground (arith, more)

known_length_cases :
    (st : Egress) (t m : ℕ)
    → (known_length st t m ≡ stop aborted)
      ⊎ ((known_length st t m ≡ ok st) × ((st.miovs m).left ≢ 0))
known_length_cases st t m = elim (Bool-cases ((st.miovs m).left == 0)) [
  | inl e ↦ inl (known_length_aborts st t m (ground arith))
  | inr e ↦ let known = ==→ne (st.miovs m).left 0 e in inr (known_length_same st t m known, known)
]

spanning_packet-Shorter :
    (st : Egress) (t m tlen : ℕ)
    → st.outq.has_freeq ≡ false
    → Shorter (st.mbufs t) t (spanning_packet st t m tlen)
unfolding spanning_packet
spanning_packet-Shorter st t m tlen h = elim (known_length_cases st t m) [
  | inl e ↦ ground (arith, e)
  | inr (e, known) ↦
      ground (arith, e, continue_packet-Shorter st t m tlen, finish_packet-Finished st t m h)
]

continued_packet-Shorter :
    (st : Egress) (t m offset : ℕ)
    → st.outq.has_freeq ≡ false
    → Shorter (st.mbufs t) t (continued_packet st t m offset)
unfolding continued_packet
continued_packet-Shorter st t m offset h = elim (known_length_cases st t m) [
  | inl e ↦ ground (arith, e)
  | inr (e, known) ↦ ground (arith, e, rest_of_packet-Shorter st t m offset h known)
]

split_payload-Shorter :
    (st : Egress) (t m offset : ℕ)
    → st.outq.has_freeq ≡ false
    → Shorter (st.mbufs t) t (split_payload st t m offset)
unfolding split_payload
split_payload-Shorter st t m offset h =
    let tlen = mbuf_len (st.mbufs t) % u16 in
    ground (
      arith,
      start_packet-Shorter st t m offset tlen h,
      spanning_packet-Shorter st t m tlen h,
      continued_packet-Shorter st t m offset h,
    )

Shorter-guard :
    (a : Mbuf) (t : ℕ) (b : Bool) (e : Stop) (o : Outcome Next)
    → e ≢ starved
    → Shorter a t o
    → Shorter a t (guard b e >> o)
Shorter-guard a t true e o fine h = h
Shorter-guard a t false e o fine h = fine

inner_packet-Shorter :
    (st : Egress) (t offset : ℕ) (m : Option ℕ)
    → st.outq.has_freeq ≡ false
    → Shorter (st.mbufs t) t (inner_packet st m >>= λ (p, st'). split_payload st' t p offset)
unfolding inner_packet miovq_pop
inner_packet-Shorter st t offset (some m) h = split_payload-Shorter st t m offset h
inner_packet-Shorter st t offset none h =
    let m = get_or st.iovfreeq.queue (st.iovfreeq.depth - 1) 0 in
    let q = record st.iovfreeq { depth = st.iovfreeq.depth - 1 } in
    let popped = split_payload-Shorter (record st { iovfreeq = q }) t m offset h in
    elim (Bool-cases (st.iovfreeq.depth == 0)) [
      | inl e ↦ simp e (ground arith)
      | inr e ↦ simp e popped
    ]

add_step-Shorter :
    (st : Egress) (t : ℕ) (new : Bool) (m : Option ℕ)
    → st.outq.has_freeq ≡ false
    → Shorter (st.mbufs t) t (add_step st t new m)
unfolding add_step
add_step-Shorter st t true m h =
    let offset = get16 (st.mbufs t).space ((st.mbufs t).start + 6) in
    let st1 = set_start st t ((st.mbufs t).start + 8) in
    let rest = inner_packet st1 m >>= λ (p, st'). split_payload st' t p offset in
    let ltlen = mbuf_len (st.mbufs t) in
    Shorter-guard (st.mbufs t) t (not (ltlen == 0)) exited (guard (ltb 8 ltlen) aborted >> rest)
      (ground arith)
      (Shorter-guard (st.mbufs t) t (ltb 8 ltlen) aborted rest (ground arith) (
        Shorter-weaken (st1.mbufs t) (st.mbufs t) t rest (start_len st t 8)
          (inner_packet-Shorter st1 t offset m h)))
add_step-Shorter st t false m h =
    let rest = inner_packet st m >>= λ (p, st'). split_payload st' t p 0 in
    Shorter-guard (st.mbufs t) t (not (mbuf_len (st.mbufs t) == 0)) exited rest (ground arith)
      (inner_packet-Shorter st t 0 m h)

-- What add_to_inner_packet makes of the outcome of a step.
abbrev pub after_step : ℕ → ℕ → Outcome Next → Outcome (Option ℕ × Egress)
after_step k t (ok (returns m st)) = ok (m, st)
after_step k t (ok (recurse st)) = add_to_inner_packet k st t false none
after_step k t (stop e) = stop e

step_ends :
    (k t : ℕ) (tbuf : Mbuf) (o : Outcome Next)
    → Shorter tbuf t o
    → ((st : Egress)
        → mbuf_len (st.mbufs t) < mbuf_len tbuf
        → st.outq.has_freeq ≡ false
        → add_to_inner_packet k st t false none ≢ stop starved)
    → after_step k t o ≢ stop starved
step_ends k t tbuf (stop e) h ih = ground (arith, h)
step_ends k t tbuf (ok (returns m st)) h ih = ground arith
step_ends k t tbuf (ok (recurse st)) (less, same) ih = ih st less same

-- add_to_inner_packet ends: with more calls allowed than the buffer has bytes, it never runs out of
-- them, whatever the frame holds and whichever of the program's assertions stops it. The queue of
-- finished packets is one that has no free list of its own.
pub add_to_inner_packet_ends :
    (k : ℕ) (st : Egress) (t : ℕ) (new : Bool) (m : Option ℕ)
    → mbuf_len (st.mbufs t) < k
    → st.outq.has_freeq ≡ false
    → add_to_inner_packet k st t new m ≢ stop starved
unfolding add_to_inner_packet
add_to_inner_packet_ends zero st t new m enough h = ground arith
add_to_inner_packet_ends (suc k) st t new m enough h =
    step_ends k t (st.mbufs t) (add_step st t new m) (add_step-Shorter st t new m h)
      λ st' less same.
        add_to_inner_packet_ends k st' t false none (omega (arith, enough, less)) same
