-- ===== src/Miov/References.antt =====
-- How many references the packets of src/iptfs.c hold to a buffer.
use iptfs.Prelude.{
  ℕ, zero, suc, ◌+◌, ◌*◌, ◌≤◌, ◌<◌, ◌≡◌, refl, ap, List, [], ◌∷◌, ◌++◌, length, count, ◌==◌, ltb,
  if◌then◌else◌, Bool-cases, inl, inr, arith, ==→eq,
}
use iptfs.Mbuf.{store}
use iptfs.Miov.{Miov}

-- The pieces of the buffer `q` in the packets `ps`.
abbrev pub refs : (ℕ → Miov) → ℕ → List ℕ → ℕ
refs miovs q [] = 0
refs miovs q (p ∷ ps) = count q (miovs p).mbufs + refs miovs q ps

pub refs-append :
    (miovs : ℕ → Miov) (q : ℕ) (xs ys : List ℕ)
    → refs miovs q (xs ++ ys) ≡ refs miovs q xs + refs miovs q ys
refs-append miovs q [] ys = omega arith
refs-append miovs q (x ∷ xs) ys = omega (arith, refs-append miovs q xs ys)

-- Only the lists of buffers count.
pub refs-same :
    (miovs miovs' : ℕ → Miov) (q : ℕ) (ps : List ℕ)
    → ((p : ℕ) → (miovs' p).mbufs ≡ (miovs p).mbufs)
    → refs miovs' q ps ≡ refs miovs q ps
refs-same miovs miovs' q [] same = refl
refs-same miovs miovs' q (p ∷ ps) same =
    omega (arith, ap (count q) (same p), refs-same miovs miovs' q ps same)

pub refs-store_other :
    (miovs : ℕ → Miov) (p : ℕ) (v : Miov) (q : ℕ) (ps : List ℕ)
    → count p ps ≡ 0
    → refs (store miovs p v) q ps ≡ refs miovs q ps
refs-store_other miovs p v q [] h = refl
refs-store_other miovs p v q (x ∷ xs) h = elim (Bool-cases (x == p)) [
  | inl e ↦ absurd (ground (arith, e, h))
  | inr e ↦ rw e (omega (arith, refs-store_other miovs p v q xs (ground (arith, e, h))))
]

-- Where the packet stands once, its old references go and the new ones come.
pub refs-store :
    (miovs : ℕ → Miov) (p : ℕ) (v : Miov) (q : ℕ) (ps : List ℕ)
    → count p ps ≡ 1
    → refs (store miovs p v) q ps + count q (miovs p).mbufs ≡ refs miovs q ps + count q v.mbufs
refs-store miovs p v q [] h = absurd (omega (arith, h))
refs-store miovs p v q (x ∷ xs) h = elim (Bool-cases (x == p)) [
  | inl e ↦
      rw (e, ==→eq x p e) (omega (arith, refs-store_other miovs p v q xs (ground (arith, e, h))))
  | inr e ↦ rw e (omega (arith, refs-store miovs p v q xs (ground (arith, e, h))))
]

-- Packets without pieces hold no references.
pub refs-empty :
    (miovs : ℕ → Miov) (q : ℕ) (ps : List ℕ)
    → ((p : ℕ) → 0 < count p ps → (miovs p).mbufs ≡ [])
    → refs miovs q ps ≡ 0
refs-empty miovs q [] h = refl
refs-empty miovs q (p ∷ ps) h = omega (
  arith,
  ap (count q) (h p (ground arith)),
  refs-empty miovs q ps (λ x k. h x (ground (arith, k))),
)

pub count-le-length : (q : ℕ) (xs : List ℕ) → count q xs ≤ length xs
count-le-length q [] = omega arith
count-le-length q (x ∷ xs) = ground (arith, count-le-length q xs)

pub refs-bound :
    (miovs : ℕ → Miov) (q : ℕ) (ps : List ℕ)
    → ((p : ℕ) → length (miovs p).mbufs ≤ 10000)
    → refs miovs q ps ≤ length ps * 10000
refs-bound miovs q [] h = omega arith
refs-bound miovs q (p ∷ ps) h =
    omega (arith, refs-bound miovs q ps h, h p, count-le-length q (miovs p).mbufs)

-- A packet that is in the list holds no more references than the list.
pub count-le-refs :
    (miovs : ℕ → Miov) (q p : ℕ) (ps : List ℕ)
    → 0 < count p ps
    → count q (miovs p).mbufs ≤ refs miovs q ps
count-le-refs miovs q p [] h = absurd (omega (arith, h))
count-le-refs miovs q p (x ∷ xs) h = elim (Bool-cases (x == p)) [
  | inl e ↦ rw (==→eq x p e) (omega arith)
  | inr e ↦ omega (arith, count-le-refs miovs q p xs (ground (arith, e, h)))
]

-- The elements below `n`, counted one by one.
abbrev total : ℕ → List ℕ → ℕ
total zero xs = 0
total (suc n) xs = count n xs + total n xs

total-nil : (n : ℕ) → total n [] ≡ 0
total-nil zero = refl
total-nil (suc n) = omega (arith, total-nil n)

total-cons : (n x : ℕ) (xs : List ℕ) → total n (x ∷ xs) ≡ (if ltb x n then 1 else 0) + total n xs
total-cons zero x xs = ground arith
total-cons (suc n) x xs = ground (arith, total-cons n x xs)

length-total : (n : ℕ) (xs : List ℕ) → ((q : ℕ) → 0 < count q xs → q < n) → length xs ≡ total n xs
length-total n [] h = omega (arith, total-nil n)
length-total n (x ∷ xs) h =
    ground (arith, total-cons n x xs, h x, length-total n xs (λ q k. h q (ground (arith, k))))

total-le : (n : ℕ) (xs : List ℕ) → ((q : ℕ) → count q xs ≤ 1) → total n xs ≤ n
total-le zero xs h = omega arith
total-le (suc n) xs h = omega (arith, h n, total-le n xs h)

total-lt :
    (n p : ℕ) (xs : List ℕ) → ((q : ℕ) → count q xs ≤ 1) → p < n → count p xs ≡ 0 → total n xs < n
total-lt zero p xs h below absent = absurd (omega (arith, below))
total-lt (suc n) p xs h below absent = elim (Bool-cases (p == n)) [
  | inl e ↦ omega (arith, total-le n xs h, ap (λ k. count k xs) (==→eq p n e), absent)
  | inr e ↦ omega (arith, h n, total-lt n p xs h (ground (arith, e, below)) absent)
]

-- Numbers below `n` that stand in a list at most once, and not all of them do.
pub length-lt :
    (n p : ℕ) (xs : List ℕ)
    → ((q : ℕ) → count q xs ≤ 1)
    → ((q : ℕ) → 0 < count q xs → q < n)
    → p < n
    → count p xs ≡ 0
    → length xs < n
length-lt n p xs h inside below absent =
    omega (arith, length-total n xs inside, total-lt n p xs h below absent)
