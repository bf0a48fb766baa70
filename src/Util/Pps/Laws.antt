-- ===== src/Util/Pps/Laws.antt =====
-- The sending rate of src/util.c stays in range, follows the congestion reports while they are
-- small, and the waits last to the end of the interval.
use iptfs.Prelude.{
  ℕ, ◌+◌, ◌-◌, ◌/◌, ◌%◌, ◌≤◌, ◌<◌, ◌≡◌, ◌≢◌, ◌⊎◌, inl, inr, Bool-cases, min, none, some, arith, u32,
  Returns,
}
use iptfs.Util.Clock.{Timespec, nsecs_in_sec, periodic_is_expired}
use iptfs.Util.Clock.Laws.{nanos, IsNormal}
use iptfs.Util.Pps.{
  Periodic, Pps, expire_time, time_left, periodic_wait, pps_new, pps_incrate, pps_decrate,
  pps_change_pps,
}

-- The rate is between 1 and the target, and the interval is the one of that rate.
pub record IsValid (pp : Pps) : Type 0 where
  pub positive : 1 ≤ pp.pps
  pub capped : pp.pps ≤ pp.target_pps
  pub word : pp.target_pps < u32
  pub interval : pp.periodic.ival ≡ nsecs_in_sec / pp.pps

pub pps_new-IsValid :
    (now : Timespec) (target ival : ℕ)
    → 1 ≤ target
    → target < u32
    → ival ≡ nsecs_in_sec / target
    → IsValid (pps_new now target ival)
unfolding pps_new
pps_new-IsValid now target ival h b e = record {
  positive = h;
  capped = omega arith;
  word = b;
  interval = e;
}

-- The negation of a `uint`, passed on as an `int`.
abbrev pub negate32 : ℕ → ℕ
negate32 d = (u32 - d) % u32

module _ {pp : Pps} (v : IsValid pp) where
  -- From a valid rate and whatever the change, pps_change_pps leaves a rate between 1 and the target with the interval of
  -- that rate, keeps the target and returns the new rate.
  pub pps_change_pps-IsValid :
      (d : ℕ)
      → let (nval, pp') = pps_change_pps pp d in
        IsValid pp' × (pp'.target_pps ≡ pp.target_pps) × (nval ≡ pp'.pps)
  unfolding pps_change_pps
  pps_change_pps-IsValid d = ground arith

  -- From a valid rate and for every percentage, pps_decrate leaves a rate between 1 and the target with
  -- the interval of that rate, keeps the target and returns the new rate.
  pub pps_decrate-IsValid :
      (pct : ℕ)
      → let (nval, pp') = pps_decrate pp pct in
        IsValid pp' × (pp'.target_pps ≡ pp.target_pps) × (nval ≡ pp'.pps)
  unfolding pps_decrate
  pps_decrate-IsValid pct = ground arith

  -- The step up by one of recv_ack raises the rate by one, unless it is at the target.
  pub pps_change_pps_up :
      pp.target_pps + 1 < u32 → (pps_change_pps pp 1).0 ≡ min (pp.pps + 1) pp.target_pps
  unfolding pps_change_pps
  pps_change_pps_up b = ground arith

  -- A step down by less than the rate lowers the rate by just that much.
  pub pps_change_pps_down :
      (d : ℕ) → 1 ≤ d → d < pp.pps → (pps_change_pps pp (negate32 d)).0 ≡ pp.pps - d
  unfolding pps_change_pps
  pps_change_pps_down d l h = ground arith

  -- A step down by more than the rate wraps around, and the rate jumps up to the target.
  pub pps_change_pps_wraps :
      (d : ℕ)
      → pp.pps < d
      → d + pp.target_pps ≤ u32
      → (pps_change_pps pp (negate32 d)).0 ≡ pp.target_pps
  unfolding pps_change_pps
  pps_change_pps_wraps d h b = ground arith

  -- Unless the sum of the rate and the increment is 0 modulo 2 ^ 32, pps_incrate returns, the new rate
  -- is valid, and it is the value returned.
  pub pps_incrate-IsValid :
      (inc : ℕ)
      → (pp.pps + inc) % u32 ≢ 0
      → Returns (λ r. IsValid r.1 × (r.0 ≡ r.1.pps)) (pps_incrate pp inc)
  unfolding pps_incrate
  pps_incrate-IsValid inc h = ground arith

module _ (pp : Periodic) (now later : Timespec) where
  -- For a well-formed timestamp and clock, and an interval of at most a second that does not end on a
  -- whole second, periodic_wait asks for a sleep exactly when the interval has not ended, and then for
  -- what is left of it, as a well-formed timespec; the next interval starts at the clock read last, and
  -- has the same length.
  pub periodic_wait_lem :
      IsNormal pp.timestamp
      → IsNormal now
      → pp.ival ≤ nsecs_in_sec
      → pp.timestamp.tv_nsec + pp.ival ≢ nsecs_in_sec
      → let (sleep, pp') = periodic_wait pp now later in
        ((sleep ≡ none) × (nanos pp.timestamp + pp.ival < nanos now) × (pp'.timestamp ≡ now)
          ⊎ ((ns : Timespec) × (sleep ≡ some ns)
              × (nanos now + nanos ns ≡ nanos pp.timestamp + pp.ival)
              × (ns.tv_nsec < nsecs_in_sec)
              × (pp'.timestamp ≡ later)))
        × (pp'.ival ≡ pp.ival)
  unfolding periodic_wait
  periodic_wait_lem t n i e = elim (Bool-cases (periodic_is_expired now (expire_time pp))) [
    | inl x ↦ (inl (ground arith, ground arith, ground arith), ground arith)
    | inr x ↦ (
      inr (time_left (expire_time pp) now, ground arith, ground arith, ground arith, ground arith),
      ground arith,
    )
  ]
