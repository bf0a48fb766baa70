-- ===== src/Prelude/Split.antt =====
-- Lists taken apart, and lists of values of a function.
use Prim.Native.Nat.{ℕ, zero, suc, ◌<◌}
use mathlib.Core.Path.{◌≡◌, refl, ap, ap₂}
use mathlib.Core.List.{List, [], ◌∷◌, ◌++◌, map}
use native.Mathlib.Omega.{arith}
use iptfs.Prelude.Lists.{length, count, take, drop}

pub append-inj {ℓ} :
    {A : Type ℓ} (xs ys : List A) {us vs : List A}
    → length xs ≡ length ys
    → xs ++ us ≡ ys ++ vs
    → (xs ≡ ys) × (us ≡ vs)
append-inj [] [] h e = (refl, e)
append-inj [] (y ∷ ys) h e = absurd (omega arith)
append-inj (x ∷ xs) [] h e = absurd (omega arith)
append-inj (x ∷ xs) (y ∷ ys) {us = us} {vs = vs} h e =
    let tails : xs ++ us ≡ ys ++ vs = cc in
    let (front, back) = append-inj xs ys (omega (arith, h)) tails in
    let same : x ≡ y = cc in (ap₂ ◌∷◌ same front, back)

-- Two functions that agree on the elements of a list have the same list of values.
pub map-ext_on {ℓ} :
    {A : Type ℓ} (f g : ℕ → A) (xs : List ℕ)
    → ((q : ℕ) → 0 < count q xs → f q ≡ g q)
    → map f xs ≡ map g xs
map-ext_on f g [] h = refl
map-ext_on f g (x ∷ xs) h =
    ap₂ ◌∷◌ (h x (ground arith)) (map-ext_on f g xs (λ q k. h q (ground arith)))

pub append-take-drop {ℓ} : {A : Type ℓ} (n : ℕ) (xs : List A) → take n xs ++ drop n xs ≡ xs
append-take-drop zero xs = refl
append-take-drop (suc n) [] = refl
append-take-drop (suc n) (x ∷ xs) = ap (λ l. x ∷ l) (append-take-drop n xs)
