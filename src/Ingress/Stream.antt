-- ===== src/Ingress/Stream.antt =====
-- The packets that wait in a list of mbufs, as one stream of bytes.
use mathlib.Core.Path.{fun_ext}
use native.Mathlib.Nat.{le_refl}
use iptfs.Prelude.{
  take, append-inj, append-take-drop, sym, ℕ, ◌+◌, ◌-◌, ◌≤◌, ◌<◌, ◌≡◌, refl, ap, ◌∙◌, List, [], ◌∷◌,
  ◌++◌, map, none, some, length, length-take, length-drop, drop, count, ◌==◌, arith, Bool-cases,
  inl, inr,
}
use iptfs.Iovec.{slice}
use iptfs.Iovec.Laws.{slice-add}
use iptfs.Mbuf.{Mbuf, Memory, store, mbuf_len, mbuf_bytes}
use iptfs.Ingress.{Ingress, spaces}

abbrev pub stream : Memory → List ℕ → List ℕ
stream mem [] = []
stream mem (p ∷ ps) = mbuf_bytes (mem p) ++ stream mem ps

-- The packets that wait in a list of mbufs.
abbrev pub packets : Memory → List ℕ → List (List ℕ)
packets mem ps = map (λ p. mbuf_bytes (mem p)) ps

-- The number of bytes before the first packet that starts in the next frame.
abbrev pub offset_of : Ingress → ℕ
offset_of st = elim st.leftover [ none ↦ 0 | some m ↦ mbuf_len (st.mbufs m) ]

-- Every packet lies inside its buffer.
pub record IsSound (mem : Memory) : Type 0 where
  pub at : (p : ℕ) → ((mem p).start ≤ (mem p).end) × ((mem p).end ≤ length (mem p).space)

-- Changing one mbuf leaves the stream of the others alone.
pub stream-store :
    (mem : Memory) (p : ℕ) (v : Mbuf) (ps : List ℕ)
    → count p ps ≡ 0
    → stream (store mem p v) ps ≡ stream mem ps
stream-store mem p v [] h = refl
stream-store mem p v (q ∷ ps) h = elim (Bool-cases (q == p)) [
  | inl e ↦ absurd (ground arith)
  | inr e ↦ rw e (ap (λ l. mbuf_bytes (mem q) ++ l) (stream-store mem p v ps (ground arith)))
]

-- Moving `start` forward leaves every buffer's bytes alone.
pub spaces-advance :
    (mem : Memory) (p n : ℕ) → spaces (store mem p (record (mem p) { start = n })) ≡ spaces mem
spaces-advance mem p n =
    fun_ext λ q. elim (Bool-cases (q == p)) [ inl e ↦ ground arith | inr e ↦ ground arith ]

-- A packet is what its first n bytes are, and what is left after moving `start` past them.
pub mbuf_bytes-advance :
    (m : Mbuf) (n : ℕ)
    → n ≤ mbuf_len m
    → mbuf_bytes m ≡ slice m.start n m.space ++ mbuf_bytes (record m { start = m.start + n })
mbuf_bytes-advance m n h =
    ap (λ k. slice m.start k m.space) split ∙ slice-add m.start n (m.end - (m.start + n)) m.space
  where
    split : m.end - m.start ≡ n + (m.end - (m.start + n))
    split = omega arith

-- A piece that lies inside a packet has its full length.
pub length-slice :
    (m : Mbuf) (n : ℕ)
    → m.end ≤ length m.space
    → n ≤ mbuf_len m
    → length (slice m.start n m.space) ≡ n
length-slice m n inside h =
    length-take n (drop m.start m.space) ∙ omega (arith, length-drop m.start m.space)

-- The stream depends only on the mbufs that it reads.
pub stream-ext :
    (mem mem' : Memory) (ps : List ℕ)
    → ((p : ℕ) → 0 < count p ps → mem' p ≡ mem p)
    → stream mem' ps ≡ stream mem ps
stream-ext mem mem' [] h = refl
stream-ext mem mem' (p ∷ ps) h =
    rw (h p (ground arith))
      (ap (λ l. mbuf_bytes (mem p) ++ l) (stream-ext mem mem' ps (λ q k. h q (ground arith))))

-- The first n bytes of a packet and the others.
pub take-mbuf_bytes :
    (m : Mbuf) (n : ℕ)
    → m.end ≤ length m.space
    → n ≤ mbuf_len m
    → (slice m.start n m.space ≡ take n (mbuf_bytes m))
      × (mbuf_bytes (record m { start = m.start + n }) ≡ drop n (mbuf_bytes m))
take-mbuf_bytes m n inside h =
    append-inj (slice m.start n m.space) (take n (mbuf_bytes m))
      (omega (
        arith,
        length-slice m n inside h,
        length-take n (mbuf_bytes m),
        length-slice m (mbuf_len m) inside (le_refl (mbuf_len m)),
      ))
      (sym (mbuf_bytes-advance m n h) ∙ sym (append-take-drop n (mbuf_bytes m)))
