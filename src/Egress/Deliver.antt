-- ===== src/Egress/Deliver.antt =====
-- add_to_inner_packet of src/iptfs.c on a packet that starts in the payload: padding, a packet that
-- goes on in the next frame, and a whole packet.
use native.Mathlib.Nat.{add-zero, le_refl}
use iptfs.Prelude.{
  ℕ, ◌+◌, ◌-◌, ◌*◌, ◌≤◌, ◌<◌, ◌≡◌, ◌≢◌, refl, ap, ◌∙◌, sym, List, [], ◌++◌, map, length, replicate,
  none, some, ok, ◌==◌, if◌then◌else◌, arith, ==_refl, get_or-replicate, ne→==,
}
use iptfs.Bytes.{get8, get16}
use iptfs.Iovec.{gather}
use iptfs.Mbuf.{mbuf_len, mbuf_bytes}
use iptfs.Mbuf.Fields.{get8-mbuf_bytes, get16-mbuf_bytes}
use iptfs.Miov.{niov}
use iptfs.Packing.{IsIpv4}
use iptfs.Ingress.{spaces}
use iptfs.Ingress.Stream.{spaces-advance, length-slice}
use iptfs.Egress.{
  Egress, returns, recurse, high_nibble, set_start, set_left, rest_of_packet, split_payload,
}
use iptfs.Egress.Pieces.{pile, content, pieced, finished, content-set_left}
use iptfs.Egress.Steps.{
  start_packet_pad, start_packet_ipv4, split_payload_start, rest_of_packet_done,
  rest_of_packet_more,
}
use iptfs.Egress.Moves.{IsValid-set_left, Delivered-set_left, Delivered-continued, Leaves-finished}
use iptfs.Egress.Carry.{Fresh, IsValid, HasRoom, Delivered, Leaves}

-- The first byte and the length field of the payload.
module _ (st : Egress) (t : ℕ) {bytes : List ℕ} (e : mbuf_bytes (st.mbufs t) ≡ bytes) where
  first_byte_lem :
      0 < mbuf_len (st.mbufs t) → get8 (st.mbufs t).space (st.mbufs t).start ≡ get8 bytes 0
  first_byte_lem h =
      ap (get8 (st.mbufs t).space) (sym (add-zero (st.mbufs t).start))
      ∙ get8-mbuf_bytes (st.mbufs t) 0 h
      ∙ ap (λ l. get8 l 0) e

  length_field_lem :
      4 ≤ mbuf_len (st.mbufs t) → get16 (st.mbufs t).space ((st.mbufs t).start + 2) ≡ get16 bytes 2
  length_field_lem h = get16-mbuf_bytes (st.mbufs t) 2 h ∙ ap (λ l. get16 l 2) e

module _ {st : Egress} {t p n : ℕ} (v : IsValid st (some p)) (f : Fresh (st.miovs p))
    (room : HasRoom st t n) (busy : mbuf_len (st.mbufs t) ≢ 0) where
  -- Padding: the packet at hand stays without bytes.
  pub padding_lem :
      (left : ℕ)
      → mbuf_bytes (st.mbufs t) ≡ replicate (mbuf_len (st.mbufs t)) 0
      → (st' : Egress) × (split_payload st t p 0 ≡ ok (returns (some p) st'))
        × Delivered st t (some p) [] [] left (some p) st'
  padding_lem left e = (
    set_start st t (st.mbufs t).end,
    split_payload_start st t p room.small f.1
        ∙ start_packet_pad st t p (mbuf_len (st.mbufs t)) busy (
            ap high_nibble (
              first_byte_lem st t e (omega (arith, busy))
              ∙ get_or-replicate (mbuf_len (st.mbufs t)) 0 0)),
    record {
      valid = record { outq = v.outq; distinct = v.distinct; fresh = v.fresh };
      holds = (
        ap (λ s. gather s [] (st.miovs p).iov) advance ∙ rw f.0 (unfold gather in refl),
        f.1,
        λ ne. absurd (ne refl),
        λ e. f.0,
      );
      outputs =
          ap (λ (s : ℕ → List ℕ). map (λ q. gather s [] (st.miovs q).iov) (pile st.outq)) advance;
      own = λ q. refl;
      same_spaces = advance;
      others = λ q ne. rw (ne→== q t ne);
      few_pieces = omega arith;
      maxiov = λ q. refl;
      depth = omega arith;
      size = refl;
    },
  )
    where
      advance : spaces (set_start st t (st.mbufs t).end).mbufs ≡ spaces st.mbufs
      advance = spaces-advance st.mbufs t (st.mbufs t).end

  -- The first bytes of a packet: what is known of it, and that it goes on in the next frame.
  module _ {bytes packet : List ℕ} (e : mbuf_bytes (st.mbufs t) ≡ bytes) (w : IsIpv4 packet)
      (four : 4 ≤ mbuf_len (st.mbufs t)) (same0 : get8 bytes 0 ≡ get8 packet 0)
      (same2 : get16 bytes 2 ≡ get16 packet 2) where
    split_payload_ipv4 :
        split_payload st t p 0
        ≡ rest_of_packet (set_left st p (length packet)) t p (mbuf_len (st.mbufs t))
    split_payload_ipv4 =
        split_payload_start st t p room.small f.1
        ∙ start_packet_ipv4 st t p (mbuf_len (st.mbufs t)) (length packet) four
            (ap high_nibble (first_byte_lem st t e (omega (arith, busy)) ∙ same0)
              ∙ ap (λ k. k * 16) w.version)
            (length_field_lem st t e four ∙ same2 ∙ w.length_field) (omega (arith, w.header))

    noted : ((set_left st p (length packet)).miovs p).left ≡ length packet
    noted = rw (==_refl p) refl

    one_piece :
        niov ((set_left st p (length packet)).miovs p)
        < ((set_left st p (length packet)).miovs p).maxiov
    one_piece = rw (==_refl p) (omega (arith, f.2, ap length f.0))

    no_bytes : content (set_left st p (length packet)) p ≡ []
    no_bytes = content-set_left st p (length packet) p ∙ rw f.0 (unfold gather in refl)

    pub partial_lem :
        mbuf_len (st.mbufs t) < length packet
        → (st' : Egress) × (split_payload st t p 0 ≡ ok (returns (some p) st'))
          × Delivered st t
              (some p)
              []
              (mbuf_bytes (st.mbufs t))
              (length packet - mbuf_len (st.mbufs t))
              (some p)
              st'
    partial_lem short =
        let n = mbuf_len (st.mbufs t) in
        let st1 = set_left st p (length packet) in
        (
          set_left (pieced st1 t p n) p (length packet - n),
          split_payload_ipv4
              ∙ rest_of_packet_more st1 t p one_piece (rw noted short)
              ∙ ap (λ k. ok (returns (some p) (set_left (pieced st1 t p n) p (k - n)))) noted,
          Delivered-set_left v (length packet) (
              Delivered-continued (IsValid-set_left v (length packet)) (length packet - n) no_bytes
                (rw (==_refl p) f.1) (length-slice (st.mbufs t) n room.inside.1 (le_refl n)) busy),
        )

    -- A whole packet: the rest of the payload is left in the buffer.
    pub whole_lem :
        {rest : List ℕ}
        → bytes ≡ packet ++ rest
        → length packet ≤ mbuf_len (st.mbufs t)
        → 0 < n
        → (st' : Egress) × (split_payload st t p 0
            ≡ (if mbuf_len (st'.mbufs t) == 0 then ok (returns none st') else ok (recurse st')))
          × Leaves st t p packet (length packet) rest st'
    whole_lem {rest} at_front fits some_need =
        let st1 = set_left st p (length packet) in
        let l =
          Leaves-finished packet (IsValid-set_left v (length packet))
            (omega (arith, room.room, some_need)) no_bytes room.inside noted (e ∙ at_front) fits in
        (
          finished st1 t p,
          split_payload_ipv4
              ∙ rest_of_packet_done st1 t p one_piece v.outq (omega (arith, room.room, some_need))
                  (mbuf_len (st.mbufs t)) (rw noted fits),
          record {
            delivered = Delivered-set_left v (length packet) l.delivered;
            freeq = l.freeq;
            bytes = l.bytes;
            len = l.len;
            inside = l.inside;
          },
        )
