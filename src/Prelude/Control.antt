-- ===== src/Prelude/Control.antt =====
-- How a routine ends: with a value, or in one of the ways in which the C code goes no further.
use mathlib.Core.Path.{◌≡◌, refl}
use mathlib.Core.Bool.{Bool, true, false}
use iptfs.Prelude.Tests.{if◌then◌else◌}

pub data Stop : Type 0 where
  -- `errx`
  exited : Stop
  -- a failed `assert`
  aborted : Stop
  -- `pthread_cond_wait` on an empty or a full queue, with no other thread to wake it
  blocked : Stop
  -- an access past the end of an array or a struct
  overrun : Stop
  -- an integer division by zero
  divided_by_zero : Stop
  -- a null pointer was read
  faulted : Stop
  -- the model's fuel ran out; the theorems show that the callers give enough
  starved : Stop

pub data Outcome {ℓ} (A : Type ℓ) : Type ℓ where
  ok : A → Outcome A
  stop : Stop → Outcome A

infixl 5 ◌>>=◌ ◌>>◌
-- Going on with the value, if there is one.
abbrev pub ◌>>=◌ {ℓ κ} :
    {A : Type ℓ} {B : Type κ} → (first : Outcome A) → (next : (value : A) → Outcome B) → Outcome B
◌>>=◌ (ok value) next = next value
◌>>=◌ (stop e) next = stop e

abbrev pub ◌>>◌ {ℓ} : {B : Type ℓ} → (check : Outcome (Unit {0})) → (next : Outcome B) → Outcome B
check >> next = check >>= λ passed. next

-- The run goes on only where the test holds.
abbrev pub guard : (test : Bool) → Stop → Outcome (Unit {0})
guard false how = stop how
guard true how = ok tt

-- The value of an outcome satisfies `P`; in particular there is one.
abbrev pub Returns {ℓ} : {A : Type ℓ} → (A → Type 0) → Outcome A → Type 0
Returns P (ok a) = P a
Returns P (stop e) = ⊥

pub Returns-map {ℓ} :
    {A : Type ℓ} {P Q : A → Type 0} (o : Outcome A)
    → ((a : A) → P a → Q a)
    → Returns P o
    → Returns Q o
Returns-map (ok a) f h = f a h
Returns-map (stop e) f h = h

-- A value that satisfies `P`, with the equation.
pub Returns-value {ℓ} :
    {A : Type ℓ} {P : A → Type 0} (o : Outcome A) → Returns P o → (a : A) × (o ≡ ok a) × P a
Returns-value (ok a) h = (a, refl, h)
Returns-value (stop e) h = absurd h

-- If the outcome has a value, it satisfies `P`.
abbrev pub Whenever {ℓ} : {A : Type ℓ} → (A → Type 0) → Outcome A → Type 0
Whenever P (ok a) = P a
Whenever P (stop e) = Unit {0}

pub Whenever-bind {ℓ κ} :
    {A : Type ℓ} {B : Type κ} (P : A → Type 0) (Q : B → Type 0) (o : Outcome A) (f : A → Outcome B)
    → Whenever P o
    → ((a : A) → P a → Whenever Q (f a))
    → Whenever Q (o >>= f)
Whenever-bind P Q (ok a) f h k = k a h
Whenever-bind P Q (stop e) f h k = tt

pub Whenever-guard {ℓ} :
    {A : Type ℓ} (P : A → Type 0) (b : Bool) (e : Stop) (o : Outcome A)
    → Whenever P o
    → Whenever P (guard b e >> o)
Whenever-guard P true e o h = h
Whenever-guard P false e o h = tt

pub Whenever-if {ℓ} :
    {A : Type ℓ} (P : A → Type 0) (b : Bool) (x y : Outcome A)
    → Whenever P x
    → Whenever P y
    → Whenever P (if b then x else y)
Whenever-if P true x y h k = h
Whenever-if P false x y h k = k

pub Whenever-split {ℓ} :
    {A : Type ℓ} (P : A → Type 0) (b : Bool) (x y : Outcome A)
    → (b ≡ true → Whenever P x)
    → (b ≡ false → Whenever P y)
    → Whenever P (if b then x else y)
Whenever-split P true x y h k = h refl
Whenever-split P false x y h k = k refl

pub Whenever-Returns {ℓ} :
    {A : Type ℓ} (P : A → Type 0) (o : Outcome A) → Returns P o → Whenever P o
Whenever-Returns P (ok a) h = h
Whenever-Returns P (stop e) h = absurd h

pub Whenever-any {ℓ} : {A : Type ℓ} (o : Outcome A) → Whenever (λ _. Unit {0}) o
Whenever-any (ok a) = tt
Whenever-any (stop e) = tt
