-- ===== src/Egress/Frame.antt =====
-- add_to_inner_packet of src/iptfs.c on a whole frame: the packets that end in it come out in order,
-- the one that goes on in the next frame is kept.
use native.Mathlib.Nat.{le_refl}
use iptfs.Prelude.{
  ℕ, suc, ◌+◌, ◌≤◌, ◌<◌, ◌≡◌, ◌≢◌, refl, ap, ◌∙◌, sym, true, List, [], ◌++◌, length, length-append,
  Option, none, some, ok, Returns, Returns-map, u16, arith, lt→ltb, ne→==, ==_refl, append-inj,
}
use iptfs.Bytes.{get16}
use iptfs.Iovec.{slice, gather}
use iptfs.Mbuf.{Memory, mbuf_len, mbuf_bytes}
use iptfs.Mbuf.Fields.{get16-mbuf_bytes, get16-append}
use iptfs.Miov.{niov}
use iptfs.Packing.{first_len, AllIpv4, pack, pack-Packs, length-payload}
use iptfs.Packing.Glue.{glue, carried, ahead}
use iptfs.Ingress.{frame_header}
use iptfs.Ingress.Empty.{length-frame_header}
use iptfs.Ingress.Stream.{spaces-advance, length-slice, mbuf_bytes-advance}
use iptfs.Egress.{Egress, set_start, inner_packet, split_payload, add_step, add_to_inner_packet}
use iptfs.Egress.Progress.{after_step}
use iptfs.Egress.Pieces.{pile}
use iptfs.Egress.Carry.{IsValid, HasRoom, Holds, Delivered}
use iptfs.Egress.Chain.{
  Taken, HasRoom-Taken, take_free, Delivered-Taken, Delivered-set_start, unfold_call,
}
use iptfs.Egress.Unpack.{unpack_lem}

-- The packet at hand, if any, holds `acc` and has room for one more piece.
pub record IsReady (st : Egress) (m : Option ℕ) (acc : List ℕ) (left : ℕ) : Type 0 where
  pub valid : IsValid st m
  pub holds : Holds st m acc left
  pub pieces : (p : ℕ) → m ≡ some p → niov (st.miovs p) < (st.miovs p).maxiov

-- The call on a whole frame.
pub frame_call :
    (k : ℕ) (st : Egress) (t : ℕ) (m : Option ℕ) {offset p : ℕ} {st2 : Egress}
    → 8 < mbuf_len (st.mbufs t)
    → get16 (st.mbufs t).space ((st.mbufs t).start + 6) ≡ offset
    → inner_packet (set_start st t ((st.mbufs t).start + 8)) m ≡ ok (p, st2)
    → add_to_inner_packet (suc k) st t true m ≡ after_step k t (split_payload st2 t p offset)
unfolding add_step
frame_call k st t m long at_6 got =
    unfold_call k st t true m
    ∙ rw (ne→== (mbuf_len (st.mbufs t)) 0 (omega (arith, long)), lt→ltb 8 _ long, at_6, got)

pub header_offset : (seq offset : ℕ) → offset < u16 → get16 (frame_header seq offset) 6 ≡ offset
unfolding frame_header get16
header_offset seq offset small = omega (arith, small)

-- The state in which the payload is unpacked.
module _ {st : Egress} {t : ℕ} {m : Option ℕ} {acc : List ℕ} {left n : ℕ}
    (ready : IsReady st m acc left) (room : HasRoom st t n) (long : 8 < mbuf_len (st.mbufs t)) where
  abbrev inside_frame : Egress
  inside_frame = set_start st t ((st.mbufs t).start + 8)

  HasRoom-inside : HasRoom inside_frame t n
  HasRoom-inside = record {
    inside = rw (==_refl t) (omega (arith, long, room.inside), room.inside.1);
    small = rw (==_refl t) (omega (arith, room.small));
    room = room.room;
    supply = room.supply;
  }

  IsValid-inside : IsValid inside_frame m
  IsValid-inside = record {
    outq = ready.valid.outq;
    distinct = ready.valid.distinct;
    fresh = ready.valid.fresh;
  }

  Holds-inside : Holds inside_frame m acc left
  Holds-inside = Holds_at m ready.holds
    where
      Holds_at : (m : Option ℕ) → Holds st m acc left → Holds inside_frame m acc left
      Holds_at none h = h
      Holds_at (some p) (bytes, len, left, none_yet) = (
        ap (λ s. gather s [] (st.miovs p).iov) (spaces-advance st.mbufs t ((st.mbufs t).start + 8))
            ∙ bytes,
        len,
        left,
        none_yet,
      )

  -- What follows the header, and the offset in it.
  module _ (seq offset : ℕ) (payload : List ℕ) (small : offset < u16)
      (e : mbuf_bytes (st.mbufs t) ≡ frame_header seq offset ++ payload) where
    bytes-inside : mbuf_bytes (inside_frame.mbufs t) ≡ payload
    bytes-inside = rw (==_refl t) (
        sym (
          (append-inj (frame_header seq offset) (slice (st.mbufs t).start 8 (st.mbufs t).space)
            (length-frame_header seq offset
              ∙ sym (length-slice (st.mbufs t) 8 room.inside.1 (omega (arith, long))))
            (sym e ∙ mbuf_bytes-advance (st.mbufs t) 8 (omega (arith, long)))).1))

    offset-inside : get16 (st.mbufs t).space ((st.mbufs t).start + 6) ≡ offset
    offset-inside =
        get16-mbuf_bytes (st.mbufs t) 6 (omega (arith, long))
        ∙ ap (λ l. get16 l 6) e
        ∙ get16-append (frame_header seq offset) payload 6
            (omega (arith, length-frame_header seq offset))
        ∙ header_offset seq offset small

pub inner_packet-some : (st : Egress) (p : ℕ) → inner_packet st (some p) ≡ ok (p, st)
unfolding inner_packet
inner_packet-some st p = refl

Holds-none :
    {st : Egress} {p : ℕ} {st2 : Egress} {acc : List ℕ} {left : ℕ}
    → Taken st p st2
    → acc ≡ []
    → Holds st2 (some p) acc left
Holds-none {st2 = st2} taken e = (
  rw taken.clear.0 (unfold gather in sym e),
  omega (arith, taken.clear.1, ap length e),
  λ ne. absurd (ne e),
  λ _. taken.clear.0,
)

-- The frame in which the waiting packets `ps` go on, the first after the bytes `acc`, as `pack` makes
-- it for a payload of `n` bytes.
module _ (k : ℕ) {st : Egress} {t : ℕ} (n : ℕ) (acc : List ℕ) (ps : List (List ℕ)) (seq : ℕ)
    (long : 6 < n) (enough : n ≤ k) (small : ahead acc ps < u16)
    (e : mbuf_bytes (st.mbufs t) ≡ frame_header seq (ahead acc ps) ++ (pack n ps).payload)
    (ipv4 : AllIpv4 (glue acc ps)) (begun : acc ≢ [] → first_len ps ≢ 0)
    (room : HasRoom st t (length (pack n ps).whole))
    (supply : length (pack n ps).whole < length (pile st.iovfreeq)) where
  frame_len : mbuf_len (st.mbufs t) ≡ n + 8
  frame_len = omega (
    arith,
    length-slice (st.mbufs t) (mbuf_len (st.mbufs t)) room.inside.1 (le_refl _),
    ap length e,
    length-append (frame_header seq (ahead acc ps)) (pack n ps).payload,
    length-frame_header seq (ahead acc ps),
    length-payload (pack-Packs n ps),
  )

  abbrev payload_at : Egress
  payload_at = set_start st t ((st.mbufs t).start + 8)

  payload_len : n ≡ mbuf_len (payload_at.mbufs t)
  payload_len = rw (==_refl t) (omega (arith, frame_len))

  longer : 8 < mbuf_len (st.mbufs t)
  longer = omega (arith, long, frame_len)

  abbrev Came : Option ℕ → Option ℕ × Egress → Type 0
  Came m (m', st') =
      Delivered st t m (glue acc (pack n ps).whole) (carried acc (pack n ps))
        (first_len (pack n ps).rest) m' st'

  -- On a buffer with a whole frame, whose payload of more than 6 and fewer than 2 ^ 16 bytes is
  -- what `pack` makes of the packets still to come and whose offset is the number of bytes left of
  -- the packet at hand, if any, add_to_inner_packet returns: it finishes the packets that end in
  -- the frame, in order, the first with the bytes at hand, keeps the bytes of the one that goes on,
  -- and leaves a valid state and the bytes of all buffers as they were. The packets with the bytes
  -- at hand are IPv4 packets, the packet at hand has room for a piece, there are free packets and
  -- room on the queue, and the fuel is at least the size of the payload.
  pub add_to_inner_packet_lem :
      (m : Option ℕ)
      → IsReady st m acc (first_len ps)
      → Returns (Came m) (add_to_inner_packet (suc k) st t true m)
  add_to_inner_packet_lem (some p) ready =
      rw
        (frame_call k st t (some p) longer
          (offset-inside ready room longer seq (ahead acc ps) (pack n ps).payload small e)
          (inner_packet-some payload_at p))
        (Returns-map (after_step k t (split_payload payload_at t p (ahead acc ps)))
          (λ (m', st'). Delivered-set_start st t ((st.mbufs t).start + 8))
          (unpack_lem k acc (pack-Packs n ps) payload_len long enough ipv4 begun
            (IsValid-inside ready room longer) (Holds-inside ready room longer)
            (ready.pieces p refl) (HasRoom-inside ready room longer)
            (bytes-inside ready room longer seq (ahead acc ps) (pack n ps).payload small e)))
  add_to_inner_packet_lem none ready =
      let (p, st2, got, taken) =
        take_free payload_at (IsValid-inside ready room longer) (omega (arith, supply)) in
      let same : st2.mbufs t ≡ payload_at.mbufs t = ap (λ (mem : Memory). mem t) taken.mbufs in
      rw
        (frame_call k st t none longer
          (offset-inside ready room longer seq (ahead acc ps) (pack n ps).payload small e) got)
        (Returns-map (after_step k t (split_payload st2 t p (ahead acc ps)))
          (λ (m', st') d.
            Delivered-set_start st t ((st.mbufs t).start + 8) (Delivered-Taken taken d))
          (unpack_lem k acc (pack-Packs n ps) (payload_len ∙ ap mbuf_len (sym same)) long enough
            ipv4 begun taken.valid (Holds-none taken ready.holds)
            (omega (arith, taken.clear.2, ap length taken.clear.0))
            (HasRoom-Taken taken (HasRoom-inside ready room longer) (omega (arith, supply)))
            (ap mbuf_bytes same
              ∙ bytes-inside ready room longer seq (ahead acc ps) (pack n ps).payload small e)))
