-- ===== src/Util/RunAvg/History.antt =====
-- runavg_add of src/util.c after any number of additions, from runavg_new on.
use native.Mathlib.Nat.{add-zero, zero-add, add-mul-mod_self_right, mod-eq_of_lt, mul-mod_left}
use native.Mathlib.Decide.{ℕ_discrete}
use iptfs.Prelude.{
  ℕ, suc, ◌+◌, ◌*◌, ◌/◌, ◌%◌, ◌≤◌, ◌<◌, ◌≡◌, ◌≢◌, refl, ap, ◌∙◌, sym, subst, min, List, [], ◌∷◌,
  ◌++◌, length, take, drop, replicate, sum, drop-cons, sum-take-drop, append_assoc, append-nil,
  arith, u32, ◌==◌, ltb, if◌then◌else◌,
}
use iptfs.Util.RunAvg.{RunAvg, runavg_new, runavg_add, add_all}
use iptfs.Util.RunAvg.Laws.{
  window, IsValid, window-runavg_add, runavg_add-IsValid, runlen-runavg_add, min_value-runavg_add,
  count-runavg_add, runavg_new-IsValid,
}

abbrev pub AllSmall : List ℕ → Type 0
AllSmall [] = Unit {0}
AllSmall (v ∷ vs) = (v < u32) × AllSmall vs

module _ (n m : ℕ) where
  -- `k` values have been added to an average over `n` values.
  pub record Counted (k : ℕ) (r : RunAvg) : Type 0 where
    pub valid : IsValid r
    pub run : r.runlen ≡ n
    pub floor : r.min_value ≡ m
    pub count : r.ticks * n + r.index ≡ k

  ticks-le : {k : ℕ} {r : RunAvg} → Counted k r → r.ticks ≤ k
  ticks-le {k} {r} c = grind (arith, c.count, c.run, c.valid.index_in)

  Counted-step :
      {k : ℕ} {r : RunAvg} (v : ℕ)
      → v < u32
      → k + 1 < u32
      → Counted k r
      → Counted (k + 1) (runavg_add r v).1
  Counted-step {k} {r} v b t c =
      let few : r.ticks + 1 < u32 = omega (arith, ticks-le c) in
      record {
        valid = runavg_add-IsValid v c.valid b few;
        run = runlen-runavg_add v c.valid ∙ c.run;
        floor = min_value-runavg_add v c.valid ∙ c.floor;
        count = rw (← c.run) (count-runavg_add v c.valid few ∙ rw c.run (omega (arith, c.count)));
      }

  drop-window :
      {k : ℕ} {r : RunAvg} (v : ℕ) (vs : List ℕ)
      → Counted k r
      → drop (length vs) ((drop 1 (window r) ++ v ∷ []) ++ vs)
        ≡ drop (suc (length vs)) (window r ++ v ∷ vs)
  drop-window {k} {r} v vs c =
      rw (drop-cons r.values r.index (omega (arith, c.valid.size, c.valid.index_in)))
        (rw (append_assoc (drop (suc r.index) r.values ++ take r.index r.values) (v ∷ []) vs))

  pub window-add_all :
      (vs : List ℕ) (k : ℕ) (r : RunAvg)
      → AllSmall vs
      → k + length vs < u32
      → Counted k r
      → Counted (k + length vs) (add_all r vs)
        × (window (add_all r vs) ≡ drop (length vs) (window r ++ vs))
  unfolding add_all
  window-add_all [] k r s b c = (rw add-zero c, sym (append-nil (window r)))
  window-add_all (v ∷ vs) k r s b c =
      let c' = Counted-step v s.0 (omega arith) c in
      let rest = window-add_all vs (k + 1) (runavg_add r v).1 s.1 (omega arith) c' in
      (
        subst (λ j. Counted j (add_all (runavg_add r v).1 vs)) (shift k vs) rest.0,
        rest.1 ∙ rw (window-runavg_add v c.valid) (drop-window v vs c),
      )
    where
      shift : (k : ℕ) (vs : List ℕ) → k + 1 + length vs ≡ k + suc (length vs)
      shift k vs = omega arith

  Counted-new : 0 < n → Counted 0 (runavg_new n m)
  Counted-new h = record {
    valid = runavg_new-IsValid n m h;
    run = unfold runavg_new in refl;
    floor = unfold runavg_new in refl;
    count = unfold runavg_new in omega arith;
  }

  -- What the average is meant to be: `total / k`, but at least `m` if anything was counted.
  abbrev pub floored : ℕ → ℕ → ℕ
  floored total k = if total == 0 then 0 else if ltb (total / k) m then m else total / k

  module _ {k : ℕ} {r : RunAvg} (h : 0 < n) (c : Counted k r) where
    -- How far the additions are into the round, at its end and before it.
    round_end : r.index + 1 ≡ n → (k + 1) % n ≡ 0
    round_end e = rw (whole, mul-mod_left (r.ticks + 1) n)
      where
        whole : k + 1 ≡ (r.ticks + 1) * n
        whole = omega (arith, c.count)

    round_open : r.index + 1 ≢ n → (k + 1) % n ≡ r.index + 1
    round_open e =
        rw (part, add-mul-mod_self_right (r.index + 1) r.ticks n)
          (mod-eq_of_lt (omega (arith, c.valid.index_in, c.run)))
      where
        part : k + 1 ≡ r.index + 1 + r.ticks * n
        part = omega (arith, c.count)

    first_round : r.ticks ≡ 0 → k ≡ r.index
    first_round e = omega (arith, c.count, ap (λ (t : ℕ). t * n) e)

    later_round : r.ticks ≢ 0 → n ≤ k
    later_round e = grind (arith, c.count)

    few_ticks : k + 1 < u32 → (r.ticks + 1) % u32 ≡ r.ticks + 1
    few_ticks t = mod-eq_of_lt (omega (arith, ticks-le c))

    ticked_lem : (v : ℕ) → (runavg_add r v).0 ≡ ((k + 1) % n == 0)
    unfolding runavg_add
    ticked_lem v = elim (ℕ_discrete (r.index + 1) n) [
      | yes e ↦ rw (round_end e) (ground (arith, c.run))
      | no e ↦ rw (round_open e) (ground (arith, c.run))
    ]

    average_lem :
        (v : ℕ)
        → k + 1 < u32
        → (runavg_add r v).1.average ≡ floored (runavg_add r v).1.total (min n (k + 1))
    unfolding runavg_add
    average_lem v t = elim (ℕ_discrete r.ticks 0) [
      | yes e ↦ ground (arith, c.run, c.floor, first_round e, few_ticks t, c.valid.index_in)
      | no e ↦ ground (arith, c.run, c.floor, later_round e, few_ticks t, c.valid.index_in)
    ]

sum-window : (r : RunAvg) → sum (window r) ≡ sum r.values
sum-window r = sum-take-drop r.values r.index

-- Fresh from runavg_new with a run of n > 0 values and minimum m, after adding the values `vs` and
-- then `v`, all below 2 ^ 32 and fewer than 2 ^ 32 in number, runavg_add returns true exactly when
-- the number of additions is a multiple of n; the total is the sum, modulo 2 ^ 32, of the last n
-- values (zeros before the first); and the average is that total over the number of values counted,
-- at most n, but at least m unless the total is 0.
pub runavg_history :
    (n m : ℕ) (vs : List ℕ) (v : ℕ)
    → 0 < n
    → AllSmall vs
    → v < u32
    → length vs + 1 < u32
    → let (ticked, r) = runavg_add (add_all (runavg_new n m) vs) v in
      (ticked ≡ ((length vs + 1) % n == 0))
      × (r.total ≡ sum (drop 1 (drop (length vs) (replicate n 0 ++ vs)) ++ v ∷ []) % u32)
      × (r.average ≡ floored n m r.total (min n (length vs + 1)))
runavg_history n m vs v h s b t =
    let made = window-add_all n m vs 0 (runavg_new n m) s (omega arith) (Counted-new n m h) in
    let c : Counted n m (length vs) (add_all (runavg_new n m) vs) = rw zero-add at made.0 in
    let fresh : window (runavg_new n m) ≡ replicate n 0 =
      unfold runavg_new in append-nil (replicate n 0) in
    (
      ticked_lem n m h c v,
      (runavg_add-IsValid v c.valid b (omega (arith, ticks-le n m c))).total_sum
          ∙ rw (← sum-window (runavg_add (add_all (runavg_new n m) vs) v).1)
              (rw (window-runavg_add v c.valid, made.1, fresh) refl),
      average_lem n m h c v t,
    )
