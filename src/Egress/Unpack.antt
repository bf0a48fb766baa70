-- ===== src/Egress/Unpack.antt =====
-- add_to_inner_packet of src/iptfs.c on the payload of a frame in which the packet at hand goes on.
use native.Mathlib.Nat.{mod-eq_of_lt}
use iptfs.Prelude.{
  ℕ, zero, suc, ◌-◌, ◌≤◌, ◌<◌, ◌≡◌, ◌≢◌, refl, ap, sym, subst, List, [], ◌∷◌, ◌++◌, length, take,
  drop, length-drop, none, some, ok, Returns, Returns-map, ◌==◌, if◌then◌else◌, u16, arith, lt→ltb,
  le→ltb, ne→==, ==_refl,
}
use iptfs.Mbuf.{mbuf_len, mbuf_bytes}
use iptfs.Miov.{niov}
use iptfs.Ingress.Stream.{length-slice}
use native.Mathlib.Nat.{le_refl}
use iptfs.Packing.{Packed, Packs, none_left, no_room, goes_on, fits, first_len, AllIpv4}
use iptfs.Packing.Glue.{glue, carried, ahead, glue-nil, carried-nil}
use iptfs.Egress.{
  Egress, returns, recurse, set_left, split_payload, spanning_packet, continued_packet,
}
use iptfs.Egress.Aborts.{known_length_same}
use iptfs.Egress.Progress.{after_step}
use iptfs.Egress.Pieces.{pieced, finished, content}
use iptfs.Egress.Steps.{continue_packet_lem, rest_of_packet_done}
use iptfs.Egress.Carry.{IsValid, HasRoom, Holds, Delivered}
use iptfs.Egress.Moves.{Delivered-continued, Leaves-finished}
use iptfs.Egress.Frames.{payload_lem, whole_call}

module _ {st : Egress} (t : ℕ) {p : ℕ} (v : IsValid st (some p))
    (room : niov (st.miovs p) < (st.miovs p).maxiov) (small : mbuf_len (st.mbufs t) < u16)
    (some_bytes : (st.miovs p).len ≢ 0) (known : (st.miovs p).left ≢ 0) where
  -- The packet goes on in the next frame.
  split_payload_more :
      mbuf_len (st.mbufs t) < (st.miovs p).left
      → split_payload st t p (st.miovs p).left
        ≡ ok (
            returns (some p) (
              set_left
                (pieced st t p (mbuf_len (st.mbufs t)))
                p
                ((st.miovs p).left - mbuf_len (st.mbufs t))))
  unfolding split_payload spanning_packet
  split_payload_more more = rw (
    mod-eq_of_lt small,
    ==_refl (mbuf_len (st.mbufs t)),
    ne→== (st.miovs p).len 0 some_bytes,
    lt→ltb (mbuf_len (st.mbufs t)) (st.miovs p).left more,
    known_length_same st t p known,
    lt→ltb (mbuf_len (st.mbufs t)) (st.miovs p).left more,
    continue_packet_lem st t p room,
  )

  -- The packet ends in this frame.
  split_payload_end :
      st.outq.depth < st.outq.size
      → (st.miovs p).left ≤ mbuf_len (st.mbufs t)
      → split_payload st t p (st.miovs p).left ≡ (
          if mbuf_len ((finished st t p).mbufs t) == 0
          then ok (returns none (finished st t p))
          else ok (recurse (finished st t p)))
  unfolding split_payload continued_packet
  split_payload_end free within = rw (
    mod-eq_of_lt small,
    ==_refl (mbuf_len (st.mbufs t)),
    ne→== (st.miovs p).len 0 some_bytes,
    le→ltb (mbuf_len (st.mbufs t)) (st.miovs p).left within,
    known_length_same st t p known,
    ==_refl (st.miovs p).left,
    rest_of_packet_done st t p room v.outq free (st.miovs p).left (le_refl (st.miovs p).left),
  )

  -- The packet at hand takes the whole payload.
  goes_on_lem :
      (k : ℕ) {acc : List ℕ}
      → content st p ≡ acc
      → (st.miovs p).len ≡ length acc
      → ((st.mbufs t).end ≤ length (st.mbufs t).space)
      → mbuf_len (st.mbufs t) ≢ 0
      → mbuf_len (st.mbufs t) < (st.miovs p).left
      → Returns
          (λ (m', st').
            Delivered st t
              (some p)
              []
              (acc ++ mbuf_bytes (st.mbufs t))
              ((st.miovs p).left - mbuf_len (st.mbufs t))
              m'
              st')
          (after_step k t (split_payload st t p (st.miovs p).left))
  goes_on_lem k holds len inside busy more = rw (split_payload_more more) (
      Delivered-continued v ((st.miovs p).left - mbuf_len (st.mbufs t)) holds len
        (length-slice (st.mbufs t) (mbuf_len (st.mbufs t)) inside (le_refl _)) busy)

  -- The packet at hand ends with the bytes `piece`, and then the rest of the payload is unpacked.
  ends_lem :
      (k : ℕ) {n : ℕ} {acc : List ℕ} (piece : List ℕ) {ps : List (List ℕ)} {r : Packed}
      → content st p ≡ acc
      → (st.miovs p).left ≡ length piece
      → n ≡ mbuf_len (st.mbufs t)
      → length piece ≤ n
      → n ≤ suc k
      → HasRoom st t (suc (length r.whole))
      → mbuf_bytes (st.mbufs t) ≡ piece ++ r.payload
      → Packs (n - length piece) ps r
      → AllIpv4 ps
      → Returns
          (λ (m', st').
            Delivered st t (some p) ((acc ++ piece) ∷ r.whole) r.part (first_len r.rest) m' st')
          (after_step (suc k) t (split_payload st t p (st.miovs p).left))
  ends_lem k piece {ps} {r} holds left len within enough have e rest ipv4 =
      let free : st.outq.depth < st.outq.size = omega (arith, have.room) in
      let l = Leaves-finished piece v free holds have.inside left e (omega (arith, len, within)) in
      rw (split_payload_end free (omega (arith, left, len, within))) (
        whole_call k st ps r len have l rest (λ st2 t2 p2 len2 busy2 v2 f2 room2 e2.
          payload_lem k rest len2 busy2 (omega (arith, enough, left, known)) ipv4 v2 f2 room2 e2))

-- The payload `r.payload` of the packets `ps`, the first of which has sent `acc` before, with the
-- packet at hand in which `acc` stands.
pub unpack_lem :
    (k : ℕ) {st : Egress} {t p n : ℕ} (acc : List ℕ) {ps : List (List ℕ)} {r : Packed}
    → Packs n ps r
    → n ≡ mbuf_len (st.mbufs t)
    → 6 < n
    → n ≤ k
    → AllIpv4 (glue acc ps)
    → (acc ≢ [] → first_len ps ≢ 0)
    → IsValid st (some p)
    → Holds st (some p) acc (first_len ps)
    → niov (st.miovs p) < (st.miovs p).maxiov
    → HasRoom st t (length r.whole)
    → mbuf_bytes (st.mbufs t) ≡ r.payload
    → Returns
        (λ (m', st').
          Delivered st t (some p) (glue acc r.whole) (carried acc r) (first_len r.rest) m' st')
        (after_step k t (split_payload st t p (ahead acc ps)))
unpack_lem k {st} {t} {p} [] {ps} {r} packs len long enough ipv4 more v holds pieces room e =
    Returns-map (after_step k t (split_payload st t p 0))
      (λ (m', st') d.
        subst (λ l. Delivered st t (some p) l (carried [] r) (first_len r.rest) m' st')
          (sym (glue-nil r.whole))
          (subst (λ l. Delivered st t (some p) r.whole l (first_len r.rest) m' st')
            (sym (carried-nil r)) d))
      (payload_lem k packs len (omega (arith, long)) enough (subst AllIpv4 (glue-nil ps) ipv4) v
        (holds.3 refl, holds.1, omega (arith, pieces)) room e)
unpack_lem k (x ∷ acc) (none_left n) len long enough ipv4 more v holds pieces room e =
    absurd (ground (arith, more))
unpack_lem k (x ∷ acc) (no_room n packet ps h) len long enough ipv4 more v holds pieces room e =
    absurd (omega arith)
unpack_lem k {st} {t} {p} (x ∷ acc) (goes_on n packet ps h goes) len long enough ipv4 more v holds
      pieces room e =
    let left = holds.2 (λ e. absurd (omega (arith, ap length e))) in
    let known : (st.miovs p).left ≢ 0 = omega (arith, left, goes) in
    let some_bytes : (st.miovs p).len ≢ 0 = omega (arith, holds.1) in
    subst
      (λ j.
        Returns
          (λ (m', st').
            Delivered st t (some p) [] (x ∷ (acc ++ take n packet)) (length (drop n packet)) m' st')
          (after_step k t (split_payload st t p j)))
      left
      (Returns-map (after_step k t (split_payload st t p (st.miovs p).left))
        (λ (m', st') d.
          subst (λ l. Delivered st t (some p) [] (x ∷ (acc ++ l)) (length (drop n packet)) m' st') e
            (subst (λ j. Delivered st t (some p) [] (x ∷ (acc ++ mbuf_bytes (st.mbufs t))) j m' st')
              (omega (arith, left, len, length-drop n packet)) d))
        (goes_on_lem t v pieces room.small some_bytes known k holds.0 holds.1 room.inside.1
          (omega (arith, len, long)) (omega (arith, left, len, goes))))
unpack_lem zero (x ∷ acc) (fits n packet ps r h whole rest) len long enough ipv4 more v holds pieces
      room e =
    absurd (omega (arith, enough, long))
unpack_lem (suc k) {st} {t} {p} (x ∷ acc) (fits n packet ps r h whole rest) len long enough ipv4
      more v holds pieces room e =
    let left = holds.2 (λ e. absurd (omega (arith, ap length e))) in
    let known : (st.miovs p).left ≢ 0 =
      omega (arith, left, more (λ e. absurd (omega (arith, ap length e)))) in
    let some_bytes : (st.miovs p).len ≢ 0 = omega (arith, holds.1) in
    subst
      (λ j.
        Returns
          (λ (m', st').
            Delivered st t (some p) ((x ∷ (acc ++ packet)) ∷ r.whole) r.part (first_len r.rest) m'
              st')
          (after_step (suc k) t (split_payload st t p j)))
      left
      (ends_lem t v pieces room.small some_bytes known k packet holds.0 left len whole enough room e
        rest ipv4.1)
