-- ===== src/Mbuf.antt =====
-- struct mbuf, struct ackinfo and the inline functions over them (src/iptfs.h), with mbuf_new of
-- src/mbuf.c. A pointer to an mbuf is a number; a memory maps it to the struct. The pointers into
-- the buffer (`start`, `end`, `espace`) are offsets from `space`.
pub mod Fields
use iptfs.Prelude.{
  ℕ, ◌+◌, ◌-◌, ◌%◌, List, replicate, take, drop, ◌==◌, if◌then◌else◌, u32, Outcome, ok, aborted,
  guard, ◌>>◌,
}

pub record Ackinfo : Type 0 where
  pub start : ℕ
  pub last : ℕ
  pub ndrop : ℕ

abbrev pub no_acks : Ackinfo
no_acks = record { start = 0; last = 0; ndrop = 0 }

pub record Mbuf : Type 0 where
  pub space : List ℕ
  pub espace : ℕ
  pub start : ℕ
  pub end : ℕ
  pub left : ℕ
  pub refcnt : ℕ

abbrev pub Memory : Type 0
Memory = ℕ → Mbuf

-- `*p = v`
abbrev pub store {ℓ} : {A : Type ℓ} → (ℕ → A) → ℕ → A → ℕ → A
store mem p v q = if q == p then v else mem q

abbrev pub mbuf_avail : Mbuf → ℕ
mbuf_avail m = m.espace - m.end

-- A length that would be negative is 0 here; the code tests only whether a length is positive.
abbrev pub mbuf_len : Mbuf → ℕ
mbuf_len m = m.end - m.start

-- The bytes of the packet in the buffer.
abbrev pub mbuf_bytes : Mbuf → List ℕ
mbuf_bytes m = take (mbuf_len m) (drop m.start m.space)

unfoldable pub mbuf_new : ℕ → ℕ → Mbuf
mbuf_new maxbuf hdrspace = record {
  space = replicate maxbuf 0;
  espace = maxbuf;
  start = hdrspace;
  end = hdrspace;
  left = 0;
  refcnt = 0;
}

unfoldable pub mbuf_reset : Mbuf → ℕ → Outcome Mbuf
mbuf_reset m hdrspace =
    guard (m.refcnt == 0) aborted >> ok (record m { start = hdrspace; end = hdrspace; left = 0 })

-- `atomic_fetch_add(&m->refcnt, 1)` and `atomic_fetch_sub(&m->refcnt, 1)`
abbrev pub incref : Mbuf → Mbuf
incref m = record m { refcnt = (m.refcnt + 1) % u32 }

abbrev pub decref : Mbuf → Mbuf
decref m = record m { refcnt = (m.refcnt + u32 - 1) % u32 }
