-- ===== src/Iovec/Laws.antt =====
-- Lengths and contents of iovec arrays.
use iptfs.Prelude.{
  ℕ, ◌+◌, ◌≡◌, refl, ◌∙◌, List, [], ◌∷◌, ◌++◌, drop, append_assoc, take-add, drop-drop, arith,
}
use iptfs.Iovec.{Iovec, iovlen, slice, gather}

pub iovlen-append : (xs ys : List Iovec) → iovlen (xs ++ ys) ≡ iovlen xs + iovlen ys
unfolding iovlen
iovlen-append [] ys = omega arith
iovlen-append (x ∷ xs) ys = omega (arith, iovlen-append xs ys)

module _ (header : List ℕ) where
  pub gather-append :
      (spaces : ℕ → List ℕ) (xs ys : List Iovec)
      → gather spaces header (xs ++ ys) ≡ gather spaces header xs ++ gather spaces header ys
  unfolding gather
  gather-append spaces [] ys = refl
  gather-append spaces (x ∷ xs) ys = rw (gather-append spaces xs ys, append_assoc)

-- A slice splits anywhere.
pub slice-add :
    (off n m : ℕ) (xs : List ℕ) → slice off (n + m) xs ≡ slice off n xs ++ slice (off + n) m xs
slice-add off n m xs = take-add n m (drop off xs) ∙ rw drop-drop
