-- ===== src/Receive/Recovery.antt =====
-- read_tfs_pkts of src/iptfs.c after lost frames: the packet at hand is dropped, and the packets that
-- start in the next frame come out.
use native.Mathlib.Numerals.{add-one}
use iptfs.Prelude.{
  true, false, subst, ℕ, suc, ◌+◌, ◌==◌, gt→leb, ◌-◌, ◌%◌, ◌≤◌, ◌<◌, ◌≡◌, ◌≢◌, refl, ap, ◌∙◌, sym,
  true, Bool-cases, inl, inr, List, [], ◌∷◌, ◌++◌, map, length, count, count-append, Option,
  Option-cases, none, some, ok, u32, Returns, Returns-value, arith, ==_refl, ne→==, ◌>>=◌,
  map-ext_on,
}
use iptfs.Mbuf.{Ackinfo, mbuf_len, mbuf_bytes}
use iptfs.Mqueue.Stack.{ptrs}
use iptfs.Miov.{Miovq, deref_all, miov_reset}
use iptfs.Ingress.{frame_header}
use iptfs.Packing.{pack, first_len, AllIpv4}
use iptfs.Egress.{Egress, add_to_inner_packet}
use iptfs.Egress.Pieces.{pile, content}
use iptfs.Egress.Carry.{pushed, IsValid, HasRoom, Holds}
use iptfs.Egress.Counted.{places, Counted}
use iptfs.Egress.Returned.{with_emptied, released-Counted}
use iptfs.Egress.Resync.{Clear, frame_size, Recovers, resync_lem}
use iptfs.Receive.{
  Receiver, check_seq, duplicate, after_loss, in_order, drop_partial, take_frame, data_frame,
  accept_frame, cut_frame, set_first,
}
use iptfs.Receive.Counting.{AllCounted, without_pieces}

length-zero {ℓ} : {A : Type ℓ} (l : List A) → length l ≡ 0 → l ≡ []
length-zero [] h = refl
length-zero (x ∷ l) h = absurd (omega (arith, h))

-- Exact counts make a state that add_to_inner_packet can work on.
pub IsValid-Counted : {t : ℕ} {m : Option ℕ} {st : Egress} → Counted t (ptrs m) st → IsValid st m
IsValid-Counted {st = st} c = record {
  outq = c.placed.outq;
  distinct = λ q. ground (arith, c.placed.distinct q);
  fresh = λ q k.
      let (no_refs, no_len) = c.placed.empty q k in
      let (same, _, _, some_iov) = c.placed.fits q in
      (length-zero (st.miovs q).iov (sym same ∙ ap length no_refs), no_len, some_iov);
}

-- The packet at hand, if any, has lost its pieces; the rest is as it was.
record Dropped (t : ℕ) (m : Option ℕ) (st st' : Egress) : Type 0 where
  valid : IsValid st' m
  clear : Clear st' m
  outputs : map (content st') (pile st'.outq) ≡ map (content st) (pile st.outq)
  outq : st'.outq ≡ st.outq
  iovfreeq : st'.iovfreeq ≡ st.iovfreeq
  space : (st'.mbufs t).space ≡ (st.mbufs t).space
  start : (st'.mbufs t).start ≡ (st.mbufs t).start
  end : (st'.mbufs t).end ≡ (st.mbufs t).end

-- The packet at hand is in no other place.
once :
    (r : Receiver) {p : ℕ} → AllCounted r → r.m ≡ some p → count p (places (ptrs r.m) r.egress) ≡ 1
once r {p} c e =
    let at_hand : count p (ptrs r.m) ≡ 1 = rw e (ground arith) in
    ground (
      arith,
      at_hand,
      c.placed.distinct p,
      count-append p (ptrs r.m) (pile r.egress.iovfreeq ++ pile r.egress.outq),
    )

not_finished :
    (r : Receiver) {p : ℕ} → AllCounted r → r.m ≡ some p → count p (pile r.egress.outq) ≡ 0
not_finished r {p} c e =
    let at_hand : count p (ptrs r.m) ≡ 1 = rw e (ground arith) in
    ground (
      arith,
      at_hand,
      c.placed.distinct p,
      count-append p (ptrs r.m) (pile r.egress.iovfreeq ++ pile r.egress.outq),
      count-append p (pile r.egress.iovfreeq) (pile r.egress.outq),
    )

drop_partial_lem :
    (r : Receiver)
    → AllCounted r
    → (st : Egress) × (drop_partial r ≡ ok (record r { egress = st }))
      × Dropped r.tbuf r.m r.egress st
unfolding drop_partial miov_reset
drop_partial_lem r c = elim (Option-cases r.m) [
  | inl e ↦ (
    r.egress,
    ap (λ m. elim m [ none ↦ ok r | some q ↦ without_pieces r q ]) e,
    record {
      valid = IsValid-Counted c;
      clear = rw e tt;
      outputs = refl;
      outq = refl;
      iovfreeq = refl;
      space = refl;
      start = refl;
      end = refl;
    },
  )
  | inr (p, e) ↦
      (let (pool', released, (c', same, start, end)) =
          Returns-value (deref_all r.egress.pool (r.egress.miovs p).mbufs)
            (released-Counted r.egress p c (once r c e)) in
        let st' = record r.egress { pool = pool'; miovs = with_emptied r.egress p } in
        let dropped : drop_partial r ≡ ok (record r { egress = st' }) =
          ap (λ m. elim m [ none ↦ ok r | some q ↦ without_pieces r q ]) e ∙ rw released in
        (
          st',
          dropped,
          record {
            valid = IsValid-Counted c';
            clear = subst (Clear st') (sym e) (rw (==_refl p) (refl, refl, (c.placed.fits p).3));
            outputs = map-ext_on (content st') (content r.egress) (pile r.egress.outq) (λ q k. rw (
              ne→== q p (λ same_one. absurd (
                  omega (
                    arith,
                    not_finished r c e,
                    subst (λ x. 0 < count x (pile r.egress.outq)) same_one k,
                  ))),
              same,
            ));
            outq = refl;
            iovfreeq = refl;
            space = ap (λ (f : ℕ → List ℕ). f r.tbuf) same;
            start = start;
            end = end;
          },
        ))
]

-- The record after a frame that follows a gap.
abbrev after_gap : Ackinfo → ℕ → Ackinfo
after_gap ack seq =
    let ack1 = set_first ack seq in
    let next = (ack1.last + 1) % u32 in
    record ack1 { ndrop = (ack1.ndrop + (seq + u32 - next) % u32) % u32; last = seq }

check_seq-gap :
    (ack : Ackinfo) (seq : ℕ)
    → ack.last < seq
    → seq ≢ (ack.last + 1) % u32
    → ack.last ≢ 0
    → check_seq ack seq ≡ after_loss (after_gap ack seq)
unfolding check_seq
check_seq-gap ack seq later gap not_first = elim (Bool-cases (ack.start == 0)) [
  | inl e ↦ rw (
    e,
    gt→leb seq ack.last later,
    ne→== seq ((ack.last + 1) % u32) gap,
    ne→== ack.last 0 not_first,
  )
  | inr e ↦ rw (
    e,
    gt→leb seq ack.last later,
    ne→== seq ((ack.last + 1) % u32) gap,
    ne→== ack.last 0 not_first,
  )
]

-- The packets that start and end in the frame `seq` of the packets `ps` are finished, and the one that
-- goes on is at hand.
abbrev pub Recovered : Receiver → ℕ → List (List ℕ) → ℕ → Receiver → Type 0
Recovered r n ps seq r' =
    (map (content r'.egress) (pile r'.egress.outq)
      ≡ pushed (pack n ps).whole (map (content r.egress) (pile r.egress.outq)))
    × Holds r'.egress r'.m (pack n ps).part (first_len (pack n ps).rest)
    × (r'.ack.last ≡ seq)

module _ (r : Receiver) (n : ℕ) (tail : List ℕ) (ps : List (List ℕ)) (seq : ℕ) (c : AllCounted r)
    (later : r.ack.last < seq) (gap : seq ≢ (r.ack.last + 1) % u32) (not_first : r.ack.last ≢ 0)
    (some_room : n ≢ 0) (ipv4 : AllIpv4 ps)
    (e : mbuf_bytes (r.egress.mbufs r.tbuf)
      ≡ frame_header seq (length tail) ++ (tail ++ (pack n ps).payload))
    (room : HasRoom r.egress r.tbuf (length (pack n ps).whole))
    (supply : length (pack n ps).whole < length (pile r.egress.iovfreeq)) where
  abbrev noted : Receiver
  noted = record r { ack = after_gap r.ack seq }

  recovered :
      (st : Egress)
      → Dropped r.tbuf r.m r.egress st
      → Returns (Recovered r n ps seq) (take_frame (record noted { egress = st }))
  unfolding take_frame
  recovered st d =
      let fuel = mbuf_len (st.mbufs r.tbuf) in
      let room' : HasRoom st r.tbuf (length (pack n ps).whole) = record {
        inside = rw (d.start, d.end, d.space) room.inside;
        small = omega (arith, d.start, d.end, room.small);
        room = omega (
          arith,
          room.room,
          ap (λ (q : Miovq). q.depth) d.outq,
          ap (λ (q : Miovq). q.size) d.outq,
        );
        supply = omega (arith, room.supply, ap (λ q. length (pile q)) d.iovfreeq);
      } in
      let bytes : mbuf_bytes (st.mbufs r.tbuf)
          ≡ frame_header seq (length tail) ++ (tail ++ (pack n ps).payload) =
        rw (d.start, d.end, d.space) e in
      let supply' : length (pack n ps).whole < length (pile st.iovfreeq) =
        omega (arith, supply, ap (λ q. length (pile q)) d.iovfreeq) in
      let enough : n ≤ fuel =
        omega (arith, frame_size n tail ps seq some_room ipv4 bytes room' supply') in
      let ((m', st'), taken, delivered) =
        Returns-value {P = Recovers n tail ps seq some_room ipv4 bytes room' supply' r.m}
          (add_to_inner_packet (suc fuel) st r.tbuf true r.m)
          (resync_lem n tail ps seq some_room ipv4 bytes room' supply' fuel r.m enough d.valid
            d.clear) in
      rw (add-one fuel, taken)
        (delivered.outputs ∙ ap (pushed (pack n ps).whole) d.outputs, delivered.holds, refl)

  -- After lost frames: in a state with exact reference counts, on a data frame whose number is
  -- above the last one but not the next, where one came before, and whose payload of fewer than 2
  -- ^ 16 bytes is any bytes `tail`, as many as the offset says, and then what `pack` makes of IPv4
  -- packets for n > 0 bytes, the part of a round of read_tfs_pkts from the reading of the
  -- sequence number on drops the packet at hand, finishes just the packets that start and end in
  -- the frame, in order, keeps the bytes of the one that goes on, and notes the number. There are free packets and room on the queue for them.
  pub data_frame-loss : Returns (Recovered r n ps seq) (data_frame r seq)
  unfolding data_frame accept_frame
  data_frame-loss =
      let (st, dropped, d) = drop_partial_lem noted c in
      rw
        (ap
            (λ a.
              elim a [
                | duplicate ack ↦ ok (false, record r { ack = ack })
                | after_loss ack ↦ (drop_partial (record r { ack = ack }) >>= λ r'. ok (true, r'))
                | in_order ack ↦ ok (true, record r { ack = ack })
              ]
              >>= cut_frame)
            (check_seq-gap r.ack seq later gap not_first)
          ∙ ap (λ o. o >>= (λ r'. ok (true, r')) >>= cut_frame) dropped)
        (recovered st d)
