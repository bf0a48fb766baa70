-- ===== src/Egress/Frames.antt =====
-- add_to_inner_packet of src/iptfs.c on the payload of a frame: the packets come out.
use iptfs.Prelude.{
  ℕ, zero, suc, ◌-◌, ◌≤◌, ◌≡◌, ◌≢◌, refl, ap, ◌∙◌, sym, subst, false, List, [], ◌∷◌, length, none,
  some, ok, replicate, drop, length-drop, Returns, Returns-map, ◌==◌, if◌then◌else◌, arith,
  Bool-cases, inl, inr, ==→eq, ==→ne,
}
use iptfs.Mbuf.{Mbuf, Memory, mbuf_len, mbuf_bytes}
use iptfs.Mbuf.Fields.{get8-append, get16-append, get8-take, get16-take}
use iptfs.Miov.{Miovq}
use iptfs.Packing.{Packed, Packs, none_left, no_room, goes_on, fits, first_len, AllIpv4}
use iptfs.Egress.{Egress, returns, recurse, split_payload, add_to_inner_packet}
use iptfs.Egress.Progress.{after_step}
use iptfs.Egress.Pieces.{pile}
use iptfs.Egress.Carry.{Fresh, IsValid, HasRoom, Delivered, Leaves}
use iptfs.Egress.Deliver.{padding_lem, partial_lem, whole_lem}
use iptfs.Egress.Chain.{
  take_free, Delivered-Taken, Delivered-then, Delivered-none, Packs-zero, resume_lem,
}

-- What the next packet at hand makes of the payload `r.payload` of packets `ps`.
abbrev Unpacks : ℕ → ℕ → List (List ℕ) → Packed → Type 0
Unpacks k n ps r =
    (st : Egress) (t p : ℕ)
    → n ≡ mbuf_len (st.mbufs t)
    → n ≢ 0
    → IsValid st (some p)
    → Fresh (st.miovs p)
    → HasRoom st t (length r.whole)
    → mbuf_bytes (st.mbufs t) ≡ r.payload
    → Returns (λ (m', st'). Delivered st t (some p) r.whole r.part (first_len r.rest) m' st')
        (after_step k t (split_payload st t p 0))

-- A whole packet is finished and then the rest of the payload is unpacked.
whole_then :
    (k : ℕ) (st : Egress) {t p n j : ℕ} {packet : List ℕ} (ps : List (List ℕ)) (r : Packed)
    {st1 : Egress}
    → Unpacks k (n - j) ps r
    → n ≡ mbuf_len (st.mbufs t)
    → HasRoom st t (suc (length r.whole))
    → Leaves st t p packet j r.payload st1
    → mbuf_len (st1.mbufs t) ≢ 0
    → Returns
        (λ (m', st'). Delivered st t (some p) (packet ∷ r.whole) r.part (first_len r.rest) m' st')
        (add_to_inner_packet (suc k) st1 t false none)
whole_then k st {t} {p} {n} {j} {packet} ps r {st1} unpacks len room l busy =
    let (p2, st2, got, taken) =
      take_free st1 l.delivered.valid
        (omega (arith, room.supply, ap (λ q. length (pile q)) l.freeq)) in
    let same : st2.mbufs t ≡ st1.mbufs t = ap (λ (mem : Memory). mem t) taken.mbufs in
    let same_len : mbuf_len (st2.mbufs t) ≡ mbuf_len (st.mbufs t) - j = ap mbuf_len same ∙ l.len in
    let d = l.delivered in
    let room2 : HasRoom st2 t (length r.whole) = record {
      inside =
          subst (λ (b : Mbuf). (b.start ≤ b.end) × (b.end ≤ length b.space)) (sym same) l.inside;
      small = omega (arith, room.small, same_len);
      room = omega (
        arith,
        room.room,
        d.depth,
        d.size,
        ap (λ (q : Miovq). q.depth) taken.outq,
        ap (λ (q : Miovq). q.size) taken.outq,
      );
      supply = omega (arith, room.supply, taken.supply, ap (λ q. length (pile q)) l.freeq);
    } in
    let fresh2 : Fresh (st2.miovs p2) = taken.clear in
    rw (resume_lem k st1 t p2 st2 busy got) (
      Returns-map (after_step k t (split_payload st2 t p2 0))
        (λ (m', st') d. Delivered-then l.delivered (Delivered-Taken taken d))
        (unpacks st2 t p2 (omega (arith, len, same_len)) (omega (arith, len, busy, l.len))
          taken.valid fresh2 room2 (ap mbuf_bytes same ∙ l.bytes)))

-- The outcome of `whole_lem`.
pub whole_call :
    (k : ℕ) (st : Egress) {t p n j : ℕ} {packet : List ℕ} (ps : List (List ℕ)) (r : Packed)
    {st1 : Egress}
    → n ≡ mbuf_len (st.mbufs t)
    → HasRoom st t (suc (length r.whole))
    → Leaves st t p packet j r.payload st1
    → Packs (n - j) ps r
    → Unpacks k (n - j) ps r
    → Returns
        (λ (m', st'). Delivered st t (some p) (packet ∷ r.whole) r.part (first_len r.rest) m' st')
        (after_step
          (suc k)
          t
          (if mbuf_len (st1.mbufs t) == 0 then ok (returns none st1) else ok (recurse st1)))
whole_call k st {t} {p} {n} {j} {packet} ps r {st1} len room l rest unpacks =
    elim (Bool-cases (mbuf_len (st1.mbufs t) == 0)) [
      | inl done ↦
          (let (none_whole, none_part) =
              Packs-zero rest (omega (arith, len, l.len, ==→eq _ _ done)) in
            rw (done, none_whole, none_part) (Delivered-none (first_len r.rest) l.delivered))
      | inr more ↦ rw more (whole_then k st ps r unpacks len room l (==→ne _ _ more))
    ]

-- The payload `r.payload` of packets `ps`, the first of which starts in it, with a packet without bytes
-- at hand: the whole packets are finished in order, and the one that goes on is at hand.
pub payload_lem :
    (k : ℕ) {st : Egress} {t p n : ℕ} {ps : List (List ℕ)} {r : Packed}
    → Packs n ps r
    → n ≡ mbuf_len (st.mbufs t)
    → n ≢ 0
    → n ≤ k
    → AllIpv4 ps
    → IsValid st (some p)
    → Fresh (st.miovs p)
    → HasRoom st t (length r.whole)
    → mbuf_bytes (st.mbufs t) ≡ r.payload
    → Returns
        (λ (m', st'). Delivered st t (some p) r.whole r.part (first_len r.rest) m' st')
        (after_step k t (split_payload st t p 0))
payload_lem k {st} {t} (none_left n) len busy enough ipv4 v f room e =
    let (st', step, d) = padding_lem v f room (omega arith) 0 (e ∙ ap (λ j. replicate j 0) len) in
    rw step d
payload_lem k {st} {t} (no_room n p ps h) len busy enough ipv4 v f room e =
    let (st', step, d) =
      padding_lem v f room (omega arith) (length p) (e ∙ ap (λ j. replicate j 0) len) in
    rw step d
payload_lem k {st} {t} {p} (goes_on n packet ps h more) len busy enough (w, _) v f room e =
    let (st', step, d) =
      partial_lem v f room (omega arith) e w (omega (arith, len, h))
        (get8-take packet n 0 (omega (arith, h))) (get16-take packet n 2 (omega (arith, h)))
        (omega (arith, len, more)) in
    rw step (
      subst (λ l. Delivered st t (some p) [] l (length (drop n packet)) (some p) st') e
        (subst (λ j. Delivered st t (some p) [] (mbuf_bytes (st.mbufs t)) j (some p) st')
          (omega (arith, len, length-drop n packet)) d))
payload_lem zero (fits n p ps r h whole rest) len busy enough ipv4 v f room e =
    absurd (omega (arith, enough, busy))
payload_lem (suc k) {st} {t} {p} (fits n packet ps r h whole rest) len busy enough (w, ws) v f room
      e =
    let (st1, step, l) =
      whole_lem v f room (omega arith) e w (omega (arith, len, h))
        (get8-append packet r.payload 0 (omega (arith, w.header)))
        (get16-append packet r.payload 2 (omega (arith, w.header))) refl (omega (arith, len, whole))
        (omega arith) in
    rw step (
      whole_call k st ps r len room l rest (λ st2 t2 p2 len2 busy2 v2 f2 room2 e2.
        payload_lem k rest len2 busy2 (omega (arith, enough, w.header)) ws v2 f2 room2 e2))
