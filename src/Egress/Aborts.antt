-- ===== src/Egress/Aborts.antt =====
-- Where getiplen and add_to_inner_packet of src/iptfs.c fail an assertion.
use iptfs.Prelude.{ℕ, suc, ◌+◌, ◌<◌, ◌≡◌, ◌≢◌, true, some, u16, ok, stop, aborted, arith, ==_refl}
use iptfs.Bytes.{get16}
use iptfs.Mbuf.{Mbuf, Memory, mbuf_len}
use iptfs.Miov.{Miov}
use iptfs.Egress.{
  Egress, getiplen, set_start, known_length, spanning_packet, continued_packet, split_payload,
  inner_packet, add_step, add_to_inner_packet,
}

-- getiplen fails its assertion whatever the packet and the buffer: the byte is masked with 0xF0 and
-- then compared with 4 and 6.
pub getiplen_aborts : (mem : Memory) (m : Miov) (tbuf : Mbuf) → getiplen mem m tbuf ≡ stop aborted
unfolding getiplen
getiplen_aborts mem m tbuf = ground arith

-- With no length known, there is none to be had.
pub known_length_aborts :
    (st : Egress) (t m : ℕ) → (st.miovs m).left ≡ 0 → known_length st t m ≡ stop aborted
unfolding known_length
known_length_aborts st t m e = ground (arith, getiplen_aborts st.mbufs (st.miovs m) (st.mbufs t))

pub known_length_same :
    (st : Egress) (t m : ℕ) → (st.miovs m).left ≢ 0 → known_length st t m ≡ ok st
unfolding known_length
known_length_same st t m e = ground arith

split_payload_aborts :
    (st : Egress) (t m offset : ℕ)
    → (st.miovs m).len ≢ 0
    → (st.miovs m).left ≡ 0
    → mbuf_len (st.mbufs t) < u16
    → split_payload st t m offset ≡ stop aborted
unfolding split_payload spanning_packet continued_packet
split_payload_aborts st t m offset some_bytes unknown small =
    ground (arith, known_length_aborts st t m unknown)

-- A packet of which only a few bytes have come, so that its length is not known yet, cannot be
-- continued: with such a packet in the making (some bytes, no length) every frame of more than 8 and
-- less than 2 ^ 16 + 8 bytes fails the assertion in getiplen.
pub short_start_aborts :
    (k : ℕ) (st : Egress) (t m : ℕ)
    → (st.miovs m).len ≢ 0
    → (st.miovs m).left ≡ 0
    → 8 < mbuf_len (st.mbufs t)
    → mbuf_len (st.mbufs t) < 8 + u16
    → add_to_inner_packet (suc k) st t true (some m) ≡ stop aborted
unfolding add_to_inner_packet add_step inner_packet
short_start_aborts k st t m some_bytes unknown long small =
    let offset = get16 (st.mbufs t).space ((st.mbufs t).start + 6) in
    let st1 = set_start st t ((st.mbufs t).start + 8) in
    let shorter : mbuf_len (st1.mbufs t) < u16 = rw (==_refl t) (omega arith) in
    let stopped = split_payload_aborts st1 t m offset some_bytes unknown shorter in
    ground (arith, stopped)
