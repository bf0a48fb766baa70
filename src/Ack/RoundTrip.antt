-- ===== src/Ack/RoundTrip.antt =====
-- What send_ack of src/iptfs.c packs is what recv_ack unpacks.
use native.Mathlib.Nat.{add-zero}
use iptfs.Prelude.{
  ℕ, ◌+◌, ◌/◌, ◌%◌, ◌≤◌, ◌<◌, ◌≡◌, ◌≢◌, refl, ap, ◌∙◌, sym, false, some, min, u32, ok, arith,
}
use iptfs.Bytes.{get32}
use iptfs.Mbuf.Fields.{get32-mbuf_bytes}
use iptfs.Mbuf.{Ackinfo, no_acks, Mbuf, mbuf_len, mbuf_bytes}
use iptfs.Util.Clock.{Timespec}
use iptfs.Ack.{Control, capped_drops, ack_buffer, send_ack, apply_report, recv_ack}

-- The fields of the buffer that send_ack fills.
module _ (now : Timespec) (ack : Ackinfo) (start : ack.start < u32) (last : ack.last < u32) where
  ack_buffer_fields :
      (get32 (ack_buffer now ack) 0 ≡ 4294967295)
      × (get32 (ack_buffer now ack) 4 ≡ 1073741824 + capped_drops ack.ndrop)
      × (get32 (ack_buffer now ack) 12 ≡ ack.start)
      × (get32 (ack_buffer now ack) 16 ≡ ack.last)
  unfolding ack_buffer get32
  ack_buffer_fields = (refl, omega (arith, capped_small), omega arith, omega arith)
    where
      capped_small : capped_drops ack.ndrop ≤ 16777215
      capped_small = ground arith

-- Take a record whose first and last sequence numbers fit 32 bits and whose first is not 0, outside
-- the one-packet mode, and an mbuf that holds the 20 bytes of the buffer that send_ack fills. Then
-- send_ack sends those bytes and clears the record; their second word starts with the bits 01, by which
-- the receiver tells them from a data frame; and recv_ack, given that mbuf, applies a report of the
-- number of drops, cut off at 0xFFFFFF, of the first and of the last sequence number.
pub recv_ack-send_ack :
    (ctl : Control) (now : Timespec) (ack : Ackinfo) (m : Mbuf)
    → ack.start ≢ 0
    → ack.start < u32
    → ack.last < u32
    → mbuf_bytes m ≡ ack_buffer now ack
    → mbuf_len m ≡ 20
    → (send_ack false now ack ≡ ok (some (mbuf_bytes m), no_acks))
      × (get32 m.space (m.start + 4) / 1073741824 ≡ 1)
      × (recv_ack false ctl m ≡ apply_report ctl (min ack.ndrop 16777215) ack.start ack.last)
recv_ack-send_ack ctl now ack m ne start last bytes len =
    let (w0, w4, w12, w16) = ack_buffer_fields now ack start last in
    let at : (i : ℕ) → i + 4 ≤ 20 → get32 m.space (m.start + i) ≡ get32 (ack_buffer now ack) i =
      λ i h. get32-mbuf_bytes m i (omega arith) ∙ ap (λ l. get32 l i) bytes in
    let first : get32 m.space m.start ≡ 4294967295 =
      ap (get32 m.space) (sym (add-zero m.start)) ∙ at 0 (omega arith) ∙ w0 in
    let drops : capped_drops ack.ndrop ≡ min ack.ndrop 16777215 = ground arith in
    let second : get32 m.space (m.start + 4) ≡ 1073741824 + min ack.ndrop 16777215 =
      at 4 (omega arith) ∙ w4 ∙ ap (λ k. 1073741824 + k) drops in
    let low : get32 m.space (m.start + 4) % 16777216 ≡ min ack.ndrop 16777215 =
      omega (arith, second) in
    (
      rw (bytes) (unfold send_ack in ground arith),
      omega (arith, second),
      unfold recv_ack in rw (len, first, low, at 12 (omega arith) ∙ w12, at 16 (omega arith) ∙ w16),
    )
