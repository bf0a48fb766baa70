-- ===== src/Util/RunAvg/Laws.antt =====
-- What runavg_add of src/util.c computes: the sum and the average of a sliding window.
use native.Mathlib.Numerals.{add-one}
use native.Mathlib.Nat.{mod-eq_of_lt}
use iptfs.Prelude.{
  ℕ, suc, ◌+◌, ◌*◌, ◌%◌, ◌≤◌, ◌<◌, ◌≡◌, refl, ◌∙◌, sym, Bool-cases, inl, inr, List, [], ◌∷◌, ◌++◌,
  length, get_or, set, take, drop, sum, sum-set, get_or-le-sum, get_or-replicate, sum-replicate,
  drop-cons, drop-set, take-set, take_all, drop_all, length-set, length-replicate, append_assoc,
  append-nil, arith, u32, ◌==◌, get_or-set_self, get_or-set_ne, ==→eq,
}
use native.Mathlib.Decide.{ℕ_discrete}
use iptfs.Util.RunAvg.{RunAvg, remove_oldest, runavg_new, runavg_add}

-- The values from the oldest to the newest.
abbrev pub window : RunAvg → List ℕ
window r = drop r.index r.values ++ take r.index r.values

-- Before the array has been filled once, the slots from `index` on hold zero.
pub record IsValid (r : RunAvg) : Type 0 where
  pub size : length r.values ≡ r.runlen
  pub index_in : r.index < r.runlen
  pub total_sum : r.total ≡ sum r.values % u32
  pub small : (j : ℕ) → get_or r.values j 0 < u32
  pub unused : r.ticks ≡ 0 → (j : ℕ) → r.index ≤ j → get_or r.values j 0 ≡ 0

pub runavg_new-IsValid : (n m : ℕ) → 0 < n → IsValid (runavg_new n m)
unfolding runavg_new
runavg_new-IsValid n m h = record {
  size = length-replicate n 0;
  index_in = h;
  total_sum = omega (arith, sum-replicate n);
  small = λ j. omega (arith, get_or-replicate n j 0);
  unused = λ e j k. get_or-replicate n j 0;
}

module _ {r : RunAvg} (v : ℕ) (h : IsValid r) where
  -- The window after an addition, when the index does not go round.
  window-stays :
      drop (r.index + 1) (set r.values r.index v) ++ take (r.index + 1) (set r.values r.index v)
      ≡ drop 1 (window r) ++ v ∷ []
  window-stays =
      rw
        (
          add-one,
          drop-set,
          take-set r.values r.index v in_range,
          drop-cons r.values r.index in_range,
        )
        (sym (append_assoc (drop (suc r.index) r.values) (take r.index r.values) (v ∷ [])))
    where
      in_range : r.index < length r.values
      in_range = omega (arith, h.size, h.index_in)

  window-round : r.index + 1 ≡ r.runlen → set r.values r.index v ++ [] ≡ drop 1 (window r) ++ v ∷ []
  window-round e =
      append-nil _
      ∙ sym (
          take_all (set r.values r.index v) (suc r.index)
            (rw length-set (omega (arith, h.size, e))))
      ∙ rw (
        take-set r.values r.index v in_range,
        drop-cons r.values r.index in_range,
        drop_all r.values (suc r.index) (omega (arith, h.size, e)),
      )
    where
      in_range : r.index < length r.values
      in_range = omega (arith, h.size, h.index_in)

  -- On a valid average, runavg_add drops the oldest value of the window and appends the new one.
  pub window-runavg_add : window (runavg_add r v).1 ≡ drop 1 (window r) ++ v ∷ []
  unfolding runavg_add
  window-runavg_add = elim (Bool-cases (r.index + 1 == r.runlen)) [
    | inl e ↦ rw e (window-round (==→eq _ _ e))
    | inr e ↦ rw e window-stays
  ]

  -- The total follows the sum of the array, modulo 2 ^ 32.
  total_follows : v < u32 → (remove_oldest r + v) % u32 ≡ sum (set r.values r.index v) % u32
  total_follows b = ground (
    arith,
    sum-set r.values r.index v in_range,
    get_or-le-sum r.values r.index,
    h.small r.index,
    h.total_sum,
    λ (e : r.ticks ≡ 0). h.unused e r.index (omega arith),
  )
    where
      in_range : r.index < length r.values
      in_range = omega (arith, h.size, h.index_in)

  set-small : v < u32 → (j : ℕ) → get_or (set r.values r.index v) j 0 < u32
  set-small b j = elim (ℕ_discrete r.index j) [
    | yes e ↦ rw (← e, get_or-set_self r.values r.index v 0 in_range) b
    | no n ↦ rw (get_or-set_ne r.values r.index j v 0 n) (h.small j)
  ]
    where
      in_range : r.index < length r.values
      in_range = omega (arith, h.size, h.index_in)

  set-unused : r.ticks ≡ 0 → (j : ℕ) → r.index + 1 ≤ j → get_or (set r.values r.index v) j 0 ≡ 0
  set-unused e j k =
      rw (get_or-set_ne r.values r.index j v 0 (omega arith)) (h.unused e j (omega arith))

  -- runavg_add keeps the invariant until the counter of rounds would wrap.
  pub runavg_add-IsValid : v < u32 → r.ticks + 1 < u32 → IsValid (runavg_add r v).1
  unfolding runavg_add
  runavg_add-IsValid b t = record {
    size = length-set r.values r.index v ∙ h.size;
    index_in = ground (arith, h.index_in);
    total_sum = total_follows b;
    small = set-small b;
    unused = λ e j k. ground (arith, λ (e' : r.ticks ≡ 0). set-unused e' j);
  }

  pub ticks-runavg_add : (runavg_add r v).1.ticks ≤ r.ticks + 1
  unfolding runavg_add
  ticks-runavg_add = ground arith

  pub runlen-runavg_add : (runavg_add r v).1.runlen ≡ r.runlen
  unfolding runavg_add
  runlen-runavg_add = refl

  pub min_value-runavg_add : (runavg_add r v).1.min_value ≡ r.min_value
  unfolding runavg_add
  min_value-runavg_add = refl

  -- The rounds and the index count the additions.
  pub count-runavg_add :
      r.ticks + 1 < u32
      → (runavg_add r v).1.ticks * r.runlen + (runavg_add r v).1.index
        ≡ r.ticks * r.runlen + r.index + 1
  unfolding runavg_add
  count-runavg_add b = elim (Bool-cases (r.index + 1 == r.runlen)) [
    | inl e ↦ rw e (rw (mod-eq_of_lt b) (omega (arith, ==→eq _ _ e)))
    | inr e ↦ rw e (omega arith)
  ]
