-- ===== src/Ingress/Empty.antt =====
-- The frame that write_empty_tfs_pkt of src/iptfs.c sends.
use native.Mathlib.Numerals.{add_eight}
use iptfs.Prelude.{
  ℕ, ◌+◌, ◌-◌, ◌%◌, ◌≤◌, ◌≡◌, refl, ap, ◌∙◌, sym, ◌++◌, length, take, replicate, take-append,
  take-replicate, arith, u32,
}
use iptfs.Bytes.{put32}
use iptfs.Ingress.{maxbuf, frame_header, write_empty_tfs_pkt}

pub length-frame_header : (seq offset : ℕ) → length (frame_header seq offset) ≡ 8
unfolding frame_header
length-frame_header seq offset = refl

-- A zero buffer with a sequence number is the header of an empty frame and zeros.
zeros_header : (n seq : ℕ) → put32 (replicate (n + 8) 0) 0 seq ≡ frame_header seq 0 ++ replicate n 0
unfolding frame_header
zeros_header n seq = rw add_eight

empty_frame :
    (n k seq : ℕ)
    → k ≤ n
    → take (8 + k) (put32 (replicate (n + 8) 0) 0 seq) ≡ frame_header seq 0 ++ replicate k 0
empty_frame n k seq h =
    ap (take (8 + k)) (zeros_header n seq)
    ∙ ap (λ j. take (j + k) (frame_header seq 0 ++ replicate n 0)) (sym (length-frame_header seq 0))
    ∙ take-append (frame_header seq 0) (replicate n 0) k
    ∙ ap (λ l. frame_header seq 0 ++ l) (take-replicate k n 0 h)

-- For an MTU between 8 and MAXBUF bytes, write_empty_tfs_pkt sends the header of a frame with the
-- sequence number and the offset 0, and zeros up to the MTU.
pub write_empty_tfs_pkt_lem :
    (seq mtu : ℕ)
    → 8 ≤ mtu
    → mtu ≤ maxbuf
    → (write_empty_tfs_pkt seq mtu).1 ≡ frame_header seq 0 ++ replicate (mtu - 8) 0
unfolding write_empty_tfs_pkt
write_empty_tfs_pkt_lem seq mtu lo hi =
    ap (λ k. take k (put32 (replicate maxbuf 0) 0 seq)) split
    ∙ empty_frame 9208 (mtu - 8) seq (omega arith)
  where
    split : mtu ≡ 8 + (mtu - 8)
    split = omega arith

pub seq-write_empty_tfs_pkt : (seq mtu : ℕ) → (write_empty_tfs_pkt seq mtu).0 ≡ (seq + 1) % u32
unfolding write_empty_tfs_pkt
seq-write_empty_tfs_pkt seq mtu = refl
