-- ===== src/Mbuf/Fields.antt =====
-- The fields of a packet in an mbuf (src/iptfs.h), read through its bytes.
use native.Mathlib.Nat.{zero-add, suc-add, add_assoc}
use iptfs.Prelude.{
  ℕ, zero, suc, ◌+◌, ◌≤◌, ◌<◌, ◌≡◌, refl, ap, ◌∙◌, sym, List, [], ◌∷◌, ◌++◌, length, take, drop,
  arith,
}
use iptfs.Bytes.{get8, get16, get32}
use iptfs.Mbuf.{Mbuf, mbuf_len, mbuf_bytes}

-- Reading a packet through its mbuf.
pub get8-take : (xs : List ℕ) (n i : ℕ) → i < n → get8 (take n xs) i ≡ get8 xs i
get8-take xs zero i h = absurd (omega arith)
get8-take [] (suc n) i h = refl
get8-take (x ∷ xs) (suc n) zero h = refl
get8-take (x ∷ xs) (suc n) (suc i) h = get8-take xs n i (omega arith)

get8-drop : (xs : List ℕ) (n i : ℕ) → get8 (drop n xs) i ≡ get8 xs (n + i)
get8-drop xs zero i = rw zero-add
get8-drop [] (suc n) i = refl
get8-drop (x ∷ xs) (suc n) i = rw suc-add (get8-drop xs n i)

pub get8-mbuf_bytes :
    (m : Mbuf) (i : ℕ) → i < mbuf_len m → get8 m.space (m.start + i) ≡ get8 (mbuf_bytes m) i
get8-mbuf_bytes m i h =
    sym (get8-drop m.space m.start i) ∙ sym (get8-take (drop m.start m.space) (mbuf_len m) i h)

pub get32-mbuf_bytes :
    (m : Mbuf) (i : ℕ) → i + 4 ≤ mbuf_len m → get32 m.space (m.start + i) ≡ get32 (mbuf_bytes m) i
unfolding get32
get32-mbuf_bytes m i h = omega (
  arith,
  get8-mbuf_bytes m i (omega arith),
  at 1 (omega arith),
  at 2 (omega arith),
  at 3 (omega arith),
)
  where
    at : (k : ℕ) → k < 4 → get8 m.space (m.start + i + k) ≡ get8 (mbuf_bytes m) (i + k)
    at k small = ap (get8 m.space) (add_assoc m.start i k) ∙ get8-mbuf_bytes m (i + k) (omega arith)

pub get16-mbuf_bytes :
    (m : Mbuf) (i : ℕ) → i + 2 ≤ mbuf_len m → get16 m.space (m.start + i) ≡ get16 (mbuf_bytes m) i
unfolding get16
get16-mbuf_bytes m i h = omega (
  arith,
  get8-mbuf_bytes m i (omega arith),
  ap (get8 m.space) (add_assoc m.start i 1) ∙ get8-mbuf_bytes m (i + 1) (omega arith),
)

pub get8-append : (xs ys : List ℕ) (i : ℕ) → i < length xs → get8 (xs ++ ys) i ≡ get8 xs i
get8-append [] ys i h = absurd (omega arith)
get8-append (x ∷ xs) ys zero h = refl
get8-append (x ∷ xs) ys (suc i) h = get8-append xs ys i (omega arith)

pub get16-append : (xs ys : List ℕ) (i : ℕ) → i + 2 ≤ length xs → get16 (xs ++ ys) i ≡ get16 xs i
unfolding get16
get16-append xs ys i h =
    omega (arith, get8-append xs ys i (omega arith), get8-append xs ys (i + 1) (omega arith))

pub get16-take : (xs : List ℕ) (n i : ℕ) → i + 2 ≤ n → get16 (take n xs) i ≡ get16 xs i
unfolding get16
get16-take xs n i h =
    omega (arith, get8-take xs n i (omega arith), get8-take xs n (i + 1) (omega arith))
