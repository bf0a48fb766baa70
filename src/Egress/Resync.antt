-- ===== src/Egress/Resync.antt =====
-- add_to_inner_packet of src/iptfs.c after a loss: with no bytes at hand, the end of a packet that
-- started in a lost frame is skipped.
use mathlib.Core.Path.{fun_ext}
use native.Mathlib.Nat.{add-zero, sub-zero, mod-eq_of_lt, le_refl}
use iptfs.Prelude.{
  Outcome, ap₂, if◌then◌else◌, guard, aborted, ◌>>=◌, ◌>>◌, ℕ, suc, ◌+◌, ◌-◌, ◌≤◌, ◌<◌, ◌≡◌, ◌≢◌,
  refl, ap, ◌∙◌, sym, true, false, Bool-cases, inl, inr, List, ◌++◌, length, length-append, Option,
  none, some, ok, Returns, Returns-map, u16, leb, ◌==◌, arith, ==_refl, append-inj,
}
use iptfs.Bytes.{get8, get16}
use iptfs.Mbuf.{Mbuf, Memory, mbuf_len, mbuf_bytes}
use iptfs.Iovec.{slice}
use iptfs.Mbuf.Fields.{get16-mbuf_bytes, get16-append}
use iptfs.Packing.{Packed, Packs, pack, pack-Packs, length-payload, first_len, AllIpv4}
use iptfs.Ingress.{frame_header}
use iptfs.Ingress.Empty.{length-frame_header}
use iptfs.Ingress.Stream.{length-slice, mbuf_bytes-advance}
use iptfs.Egress.Pieces.{pile}
use iptfs.Egress.Progress.{after_step}
use iptfs.Egress.Carry.{Fresh, IsValid, HasRoom, Delivered}
use iptfs.Egress.Chain.{HasRoom-Taken, take_free, Delivered-Taken, Delivered-set_start}
use iptfs.Egress.Frames.{payload_lem}
use iptfs.Egress.Frame.{frame_call, header_offset, inner_packet-some}
use iptfs.Egress.{
  add_to_inner_packet, Egress, Next, returns, high_nibble, packet_length, set_start, set_left,
  take_piece, rest_of_packet, start_packet, split_payload,
}
use iptfs.Egress.Steps.{set_start_zero, split_payload_start}

set_start_twice : (st : Egress) (t a b : ℕ) → set_start (set_start st t a) t b ≡ set_start st t b
set_start_twice st t a b =
    ap (λ (mem : Memory). record st { pool = record st.pool { mbufs = mem } })
      (fun_ext λ q. elim (Bool-cases (q == t)) [ inl e ↦ rw (e, ==_refl t) | inr e ↦ rw e ])

-- What start_packet does at a start inside the payload, with `n` bytes from there on.
started_at : List ℕ → ℕ → ℕ → Egress → Egress → ℕ → ℕ → Outcome Next
started_at space start n over st1 t m =
    let iplen = packet_length space start n in
    if high_nibble (get8 space start) == 0
    then ok (returns (some m) over)
    else if iplen == 0
    then (do
      st' ← take_piece st1 t m n
      guard (mbuf_len (st'.mbufs t) == 0) aborted
      ok (returns (some m) st'))
    else rest_of_packet (set_left st1 m iplen) t m n

start_packet_inside :
    (st : Egress) (t m offset tlen : ℕ)
    → offset < tlen
    → let start = (st.mbufs t).start + offset in
      start_packet st t m offset tlen
      ≡ started_at
          (st.mbufs t).space
          start
          (tlen - offset)
          (set_start st t (st.mbufs t).end)
          (set_start st t start)
          t
          m
unfolding start_packet started_at
start_packet_inside st t m offset tlen inside =
    let more : leb tlen offset ≡ false = ground arith in rw more

-- A start at an offset inside the payload is a start at the front of what follows.
start_packet_skip :
    (st : Egress) (t m offset tlen : ℕ)
    → offset < tlen
    → start_packet st t m offset tlen
      ≡ start_packet (set_start st t ((st.mbufs t).start + offset)) t m 0 (tlen - offset)
start_packet_skip st t m offset tlen inside =
    let start = (st.mbufs t).start + offset in
    let st1 = set_start st t start in
    let moved : st1.mbufs t ≡ record (st.mbufs t) { start = start } = rw (==_refl t) in
    let same_over : set_start st1 t (st1.mbufs t).end ≡ set_start st t (st.mbufs t).end =
      ap (λ (b : Mbuf). set_start st1 t b.end) moved
      ∙ set_start_twice st t start (st.mbufs t).end in
    start_packet_inside st t m offset tlen inside
    ∙ sym (
        start_packet_inside st1 t m 0 (tlen - offset) (omega (arith, inside))
        ∙ ap
            (λ (b : Mbuf).
              started_at b.space (b.start + 0) (tlen - offset - 0)
                (set_start st1 t (st1.mbufs t).end) (set_start st1 t ((st1.mbufs t).start + 0)) t m)
            moved
        ∙ ap
            (λ k.
              started_at (st.mbufs t).space k (tlen - offset - 0)
                (set_start st1 t (st1.mbufs t).end) (set_start st1 t ((st1.mbufs t).start + 0)) t m)
            (add-zero start)
        ∙ ap
            (λ k.
              started_at (st.mbufs t).space start k (set_start st1 t (st1.mbufs t).end)
                (set_start st1 t ((st1.mbufs t).start + 0)) t m)
            (sub-zero (tlen - offset))
        ∙ ap₂ (λ a b. started_at (st.mbufs t).space start (tlen - offset) a b t m) same_over
            (set_start_zero st1 t))

-- A payload of less than 2 ^ 16 bytes, with no bytes at hand: what lies before the offset is skipped.
split_payload_skip :
    (st : Egress) (t m offset : ℕ)
    → mbuf_len (st.mbufs t) < u16
    → (st.miovs m).len ≡ 0
    → offset < mbuf_len (st.mbufs t)
    → split_payload st t m offset
      ≡ split_payload (set_start st t ((st.mbufs t).start + offset)) t m 0
unfolding split_payload
split_payload_skip st t m offset small none_yet inside =
    let st1 = set_start st t ((st.mbufs t).start + offset) in
    let len : mbuf_len (st1.mbufs t) ≡ mbuf_len (st.mbufs t) - offset =
      rw (==_refl t) (omega arith) in
    let here : split_payload st t m offset ≡ start_packet st t m offset (mbuf_len (st.mbufs t)) =
      rw (mod-eq_of_lt small, ==_refl (mbuf_len (st.mbufs t)), none_yet) in
    here
    ∙ start_packet_skip st t m offset (mbuf_len (st.mbufs t)) inside
    ∙ ap (start_packet st1 t m 0) (sym len)
    ∙ sym (split_payload_start st1 t m (omega (arith, len, small)) none_yet)

-- The buffer from a later byte on.
module _ (st : Egress) (t j : ℕ) (within : j ≤ mbuf_len (st.mbufs t)) where
  abbrev advanced : Egress
  advanced = set_start st t ((st.mbufs t).start + j)

  HasRoom-advanced : {n : ℕ} → HasRoom st t n → HasRoom advanced t n
  HasRoom-advanced h = record {
    inside = rw (==_refl t) (omega (arith, within, h.inside), h.inside.1);
    small = rw (==_refl t) (omega (arith, h.small));
    room = h.room;
    supply = h.supply;
  }

  IsValid-advanced : {m : Option ℕ} → IsValid st m → IsValid advanced m
  IsValid-advanced v = record { outq = v.outq; distinct = v.distinct; fresh = v.fresh }

  len-advanced : mbuf_len (advanced.mbufs t) ≡ mbuf_len (st.mbufs t) - j
  len-advanced = rw (==_refl t) (omega arith)

  bytes-advanced :
      {n : ℕ} (front rest : List ℕ)
      → HasRoom st t n
      → length front ≡ j
      → mbuf_bytes (st.mbufs t) ≡ front ++ rest
      → mbuf_bytes (advanced.mbufs t) ≡ rest
  bytes-advanced front rest h len e = rw (==_refl t) (
      sym (
        (append-inj front (slice (st.mbufs t).start j (st.mbufs t).space)
          (len ∙ sym (length-slice (st.mbufs t) j h.inside.1 within))
          (sym e ∙ mbuf_bytes-advance (st.mbufs t) j within)).1))

-- With a packet without bytes at hand, `tail` is skipped and the rest of the payload unpacked.
skip_lem :
    (k : ℕ) {st : Egress} {t p n : ℕ} (tail : List ℕ) {ps : List (List ℕ)} {r : Packed}
    → Packs n ps r
    → n ≢ 0
    → n ≤ k
    → AllIpv4 ps
    → IsValid st (some p)
    → Fresh (st.miovs p)
    → HasRoom st t (length r.whole)
    → mbuf_bytes (st.mbufs t) ≡ tail ++ r.payload
    → Returns
        (λ (m', st'). Delivered st t (some p) r.whole r.part (first_len r.rest) m' st')
        (after_step k t (split_payload st t p (length tail)))
skip_lem k {st} {t} {p} {n} tail {ps} {r} packs some_room enough ipv4 v f room e =
    let j = length tail in
    let len : mbuf_len (st.mbufs t) ≡ j + n = omega (
      arith,
      length-slice (st.mbufs t) (mbuf_len (st.mbufs t)) room.inside.1 (le_refl _),
      ap length e,
      length-append tail r.payload,
      length-payload packs,
    ) in
    let within : j ≤ mbuf_len (st.mbufs t) = omega (arith, len) in
    let st1 = set_start st t ((st.mbufs t).start + j) in
    rw (split_payload_skip st t p j room.small f.1 (omega (arith, len, some_room))) (
      Returns-map (after_step k t (split_payload st1 t p 0))
        (λ (m', st'). Delivered-set_start st t ((st.mbufs t).start + j))
        (payload_lem k packs (omega (arith, len, len-advanced st t j within)) some_room enough ipv4
          (IsValid-advanced st t j within v) f (HasRoom-advanced st t j within room)
          (bytes-advanced st t j within tail r.payload room refl e)))

-- The packet at hand, if any, has no bytes, and has room for a piece.
abbrev pub Clear : Egress → Option ℕ → Type 0
Clear st none = Unit {0}
Clear st (some p) = Fresh (st.miovs p)

module _ {st : Egress} {t : ℕ} (n : ℕ) (tail : List ℕ) (ps : List (List ℕ)) (seq : ℕ)
    (some_room : n ≢ 0) (ipv4 : AllIpv4 ps)
    (e : mbuf_bytes (st.mbufs t) ≡ frame_header seq (length tail) ++ (tail ++ (pack n ps).payload))
    (room : HasRoom st t (length (pack n ps).whole))
    (supply : length (pack n ps).whole < length (pile st.iovfreeq)) where
  pub frame_size : mbuf_len (st.mbufs t) ≡ 8 + (length tail + n)
  frame_size = omega (
    arith,
    length-slice (st.mbufs t) (mbuf_len (st.mbufs t)) room.inside.1 (le_refl _),
    ap length e,
    length-append (frame_header seq (length tail)) (tail ++ (pack n ps).payload),
    length-append tail (pack n ps).payload,
    length-frame_header seq (length tail),
    length-payload (pack-Packs n ps),
  )

  long : 8 < mbuf_len (st.mbufs t)
  long = omega (arith, some_room, frame_size)

  within_frame : 8 ≤ mbuf_len (st.mbufs t)
  within_frame = omega (arith, long)

  offset_in_header : get16 (st.mbufs t).space ((st.mbufs t).start + 6) ≡ length tail
  offset_in_header =
      get16-mbuf_bytes (st.mbufs t) 6 (omega (arith, long))
      ∙ ap (λ l. get16 l 6) e
      ∙ get16-append (frame_header seq (length tail)) (tail ++ (pack n ps).payload) 6
          (omega (arith, length-frame_header seq (length tail)))
      ∙ header_offset seq (length tail) (omega (arith, frame_size, room.small))

  abbrev pub Recovers : Option ℕ → Option ℕ × Egress → Type 0
  Recovers m (m', st') =
      Delivered st t m (pack n ps).whole (pack n ps).part (first_len (pack n ps).rest) m' st'

  -- With no bytes at hand, on a whole frame whose payload is `tail`, as long as the offset says,
  -- and then what `pack` makes of IPv4 packets for n > 0 bytes, add_to_inner_packet skips `tail`,
  -- finishes the packets that end in the frame, in order, and keeps the bytes of the one that goes
  -- on.
  pub resync_lem :
      (k : ℕ) (m : Option ℕ)
      → n ≤ k
      → IsValid st m
      → Clear st m
      → Returns (Recovers m) (add_to_inner_packet (suc k) st t true m)
  resync_lem k (some p) enough v f =
      let st1 = set_start st t ((st.mbufs t).start + 8) in
      rw (frame_call k st t (some p) long offset_in_header (inner_packet-some st1 p)) (
        Returns-map (after_step k t (split_payload st1 t p (length tail)))
          (λ (m', st'). Delivered-set_start st t ((st.mbufs t).start + 8))
          (skip_lem k tail (pack-Packs n ps) some_room enough ipv4
            (IsValid-advanced st t 8 within_frame v) f (HasRoom-advanced st t 8 within_frame room)
            (bytes-advanced st t 8 within_frame (frame_header seq (length tail))
              (tail ++ (pack n ps).payload) room (length-frame_header seq (length tail)) e)))
  resync_lem k none enough v f =
      let st1 = set_start st t ((st.mbufs t).start + 8) in
      let room1 = HasRoom-advanced st t 8 within_frame room in
      let (p, st2, got, taken) =
        take_free st1 (IsValid-advanced st t 8 within_frame v) (omega (arith, supply)) in
      rw (frame_call k st t none long offset_in_header got) (
        Returns-map (after_step k t (split_payload st2 t p (length tail)))
          (λ (m', st') d.
            Delivered-set_start st t ((st.mbufs t).start + 8) (Delivered-Taken taken d))
          (skip_lem k tail (pack-Packs n ps) some_room enough ipv4 taken.valid taken.clear
            (HasRoom-Taken taken room1 (omega (arith, supply)))
            (ap (λ (mem : Memory). mbuf_bytes (mem t)) taken.mbufs
              ∙ bytes-advanced st t 8 within_frame (frame_header seq (length tail))
                  (tail ++ (pack n ps).payload) room (length-frame_header seq (length tail)) e)))
