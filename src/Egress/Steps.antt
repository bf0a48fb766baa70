-- ===== src/Egress/Steps.antt =====
-- The steps of add_to_inner_packet of src/iptfs.c on payloads that are as they should be.
use mathlib.Core.Path.{fun_ext}
use native.Mathlib.Nat.{add-zero, sub-zero, mod-eq_of_lt}
use iptfs.Prelude.{
  le→ltb, ℕ, ◌+◌, ◌-◌, ◌≤◌, ◌<◌, ◌≡◌, ◌≢◌, refl, ap, ◌∙◌, true, false, Bool-cases, inl, inr, le→leb,
  leb, ◌==◌, if◌then◌else◌, none, some, ok, u16, arith, ==_refl, lt→ltb, ne→==, ==→eq,
}
use iptfs.Bytes.{get8, get16}
use iptfs.Mbuf.{Memory, store, mbuf_len}
use iptfs.Miov.{niov}
use iptfs.Egress.{
  Egress, returns, recurse, high_nibble, set_start, set_left, continue_packet, rest_of_packet,
  start_packet, split_payload,
}
use iptfs.Egress.Pieces.{pieced, finished, IsPlain, take_piece_lem, finish_packet_lem}

pub set_start_zero : (st : Egress) (t : ℕ) → set_start st t ((st.mbufs t).start + 0) ≡ st
set_start_zero st t =
    ap (λ (mem : Memory). record st { pool = record st.pool { mbufs = mem } }) (fun_ext same)
  where
    same :
        (q : ℕ)
        → store st.mbufs t (record (st.mbufs t) { start = (st.mbufs t).start + 0 }) q ≡ st.mbufs q
    same q = elim (Bool-cases (q == t)) [
      | inl e ↦ rw e (
          rw (==→eq q t e)
            (ap (λ (k : ℕ). record (st.mbufs t) { start = k }) (add-zero (st.mbufs t).start)))
      | inr e ↦ rw e refl
    ]

pos→leb : (n : ℕ) → n ≢ 0 → leb n 0 ≡ false
pos→leb n h = ground (arith, h)

-- The buffer after a piece of `n` bytes.
pub len-pieced :
    (st : Egress) (t m n : ℕ) → mbuf_len ((pieced st t m n).mbufs t) ≡ mbuf_len (st.mbufs t) - n
len-pieced st t m n = rw (==_refl t) (omega arith)

module _ (st : Egress) (t m : ℕ) (room : niov (st.miovs m) < (st.miovs m).maxiov) where
  pub continue_packet_lem :
      continue_packet st t m (mbuf_len (st.mbufs t))
      ≡ ok (
          returns (some m) (
            set_left
              (pieced st t m (mbuf_len (st.mbufs t)))
              m
              ((st.miovs m).left - mbuf_len (st.mbufs t))))
  unfolding continue_packet
  continue_packet_lem =
      let n = mbuf_len (st.mbufs t) in
      let used : (mbuf_len ((pieced st t m n).mbufs t) == 0) ≡ true =
        rw (len-pieced st t m n) (ground arith) in
      rw (take_piece_lem st t m n room, used, ==_refl m)

  pub rest_of_packet_more :
      mbuf_len (st.mbufs t) < (st.miovs m).left
      → rest_of_packet st t m (mbuf_len (st.mbufs t))
        ≡ ok (
            returns (some m) (
              set_left
                (pieced st t m (mbuf_len (st.mbufs t)))
                m
                ((st.miovs m).left - mbuf_len (st.mbufs t))))
  unfolding rest_of_packet
  rest_of_packet_more h =
      rw (lt→ltb (mbuf_len (st.mbufs t)) (st.miovs m).left h) continue_packet_lem

  module _ (q : IsPlain st.outq) (free : st.outq.depth < st.outq.size) where
    pub rest_of_packet_done :
        (tlen : ℕ)
        → (st.miovs m).left ≤ tlen
        → rest_of_packet st t m tlen ≡ (
            if mbuf_len ((finished st t m).mbufs t) == 0
            then ok (returns none (finished st t m))
            else ok (recurse (finished st t m)))
    unfolding rest_of_packet
    rest_of_packet_done tlen h =
        rw (le→ltb tlen (st.miovs m).left h, finish_packet_lem st t m q free room)

-- "PAD"
pub start_packet_pad :
    (st : Egress) (t m n : ℕ)
    → n ≢ 0
    → high_nibble (get8 (st.mbufs t).space (st.mbufs t).start) ≡ 0
    → start_packet st t m 0 n ≡ ok (returns (some m) (set_start st t (st.mbufs t).end))
unfolding start_packet
start_packet_pad st t m n some_bytes pad =
    let zeros =
      ap (λ i. high_nibble (get8 (st.mbufs t).space i)) (add-zero (st.mbufs t).start) ∙ pad in
    rw (pos→leb n some_bytes, zeros)

-- "START"
pub start_packet_ipv4 :
    (st : Egress) (t m n iplen : ℕ)
    → 4 ≤ n
    → high_nibble (get8 (st.mbufs t).space (st.mbufs t).start) ≡ 64
    → get16 (st.mbufs t).space ((st.mbufs t).start + 2) ≡ iplen
    → iplen ≢ 0
    → start_packet st t m 0 n ≡ rest_of_packet (set_left st m iplen) t m n
unfolding start_packet
start_packet_ipv4 st t m n iplen long v4 length_field nonzero =
    let start = (st.mbufs t).start in
    let nibble : high_nibble (get8 (st.mbufs t).space (start + 0)) ≡ 64 =
      ap (λ i. high_nibble (get8 (st.mbufs t).space i)) (add-zero start) ∙ v4 in
    let field : get16 (st.mbufs t).space (start + 0 + 2) ≡ iplen =
      ap (λ i. get16 (st.mbufs t).space (i + 2)) (add-zero start) ∙ length_field in
    rw
      (
        pos→leb n (ground (arith, long)),
        nibble,
        sub-zero n,
        le→leb 4 n long,
        field,
        ne→== iplen 0 nonzero,
      )
      (ap (λ s. rest_of_packet (set_left s m iplen) t m n) (set_start_zero st t))

-- The payload of less than 2 ^ 16 bytes for a packet without bytes so far.
pub split_payload_start :
    (st : Egress) (t m : ℕ)
    → mbuf_len (st.mbufs t) < u16
    → (st.miovs m).len ≡ 0
    → split_payload st t m 0 ≡ start_packet st t m 0 (mbuf_len (st.mbufs t))
unfolding split_payload
split_payload_start st t m small none_yet =
    rw (mod-eq_of_lt small, ==_refl (mbuf_len (st.mbufs t)), none_yet)
