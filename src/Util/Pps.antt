-- ===== src/Util/Pps.antt =====
-- struct periodic and struct pps of src/util.c, with the functions over them. Clock readings are
-- arguments. The atomic loads and stores are plain reads and writes: one thread changes the rate,
-- and the other only reads it. An `int` argument is its two's complement, below 2 ^ 32.
pub mod Laws
use iptfs.Prelude.{
  ℕ, ◌+◌, ◌-◌, ◌*◌, ◌/◌, ◌%◌, Bool, true, false, Option, none, some, not, ltb, leb, ◌==◌,
  if◌then◌else◌, u32, u64, Outcome, ok, divided_by_zero, guard, ◌>>◌,
}
use iptfs.Util.Clock.{Timespec, nsecs_in_sec, periodic_is_expired}

pub record Periodic : Type 0 where
  pub timestamp : Timespec
  pub ival : ℕ

-- `periodic_new` is `periodic_init` at fresh memory.
pub periodic_init : Timespec → ℕ → Periodic
periodic_init now nsecs = record { timestamp = now; ival = nsecs }

pub periodic_change_rate : Periodic → ℕ → Periodic
periodic_change_rate pp nsecs = record pp { ival = nsecs }

-- `expire`, the end of the current interval.
abbrev pub expire_time : Periodic → Timespec
expire_time pp =
    let nsec = (pp.timestamp.tv_nsec + pp.ival) % u64 in
    if ltb nsecs_in_sec nsec
    then record { tv_sec = pp.timestamp.tv_sec + 1; tv_nsec = nsec - nsecs_in_sec }
    else record pp.timestamp { tv_nsec = nsec }

-- `ns`, what is left from `now` to `expire`; it is computed only when `now` is not after `expire`.
abbrev pub time_left : Timespec → Timespec → Timespec
time_left expire now =
    if leb now.tv_nsec expire.tv_nsec
    then record { tv_sec = expire.tv_sec - now.tv_sec; tv_nsec = expire.tv_nsec - now.tv_nsec }
    else record {
      tv_sec = expire.tv_sec - now.tv_sec - 1;
      tv_nsec = nsecs_in_sec + expire.tv_nsec - now.tv_nsec;
    }

-- The sleep that is asked for, if any, and the new state. `now` is the clock on entry, and `later`
-- the clock after the sleep.
pub periodic_wait : Periodic → Timespec → Timespec → Option Timespec × Periodic
unfolding periodic_is_expired
periodic_wait pp now later =
    let expire = expire_time pp in
    if not (periodic_is_expired now expire)
    then (some (time_left expire now), record pp { timestamp = later })
    else (none, record pp { timestamp = now })

pub record Pps : Type 0 where
  pub periodic : Periodic
  pub pps : ℕ
  pub target_pps : ℕ

-- Arithmetic on floats is not modelled: the float `target_pps`, cut to a whole number, and the float
-- `NSECS_IN_SEC / target_pps`, cut to one too, are the arguments `target` and `ival`.
unfoldable pub pps_new : Timespec → ℕ → ℕ → Pps
unfolding periodic_init
pps_new now target ival = record {
  periodic = periodic_init now ival;
  pps = target;
  target_pps = target;
}

-- `atomic_store` of the new rate, with the interval that belongs to it.
abbrev store_rate : Pps → ℕ → Pps
store_rate pp nval = record pp {
  pps = nval;
  periodic = periodic_change_rate pp.periodic (nsecs_in_sec / nval);
}

pub pps_incrate : Pps → ℕ → Outcome (ℕ × Pps)
unfolding periodic_change_rate
pps_incrate pp inc =
    let sum = (pp.pps + inc) % u32 in
    let nval = (if ltb pp.target_pps sum then pp.target_pps else sum) in
    if not (nval == pp.pps)
    then (guard (not (nval == 0)) divided_by_zero >> ok (nval, store_rate pp nval))
    else ok (nval, pp)

-- At most the target, and at least 1.
abbrev clamp_rate : Pps → ℕ → ℕ
clamp_rate pp nval =
    let capped = (if ltb pp.target_pps nval then pp.target_pps else nval) in
    if capped == 0 then 1 else capped

pub pps_decrate : Pps → ℕ → ℕ × Pps
unfolding periodic_change_rate
pps_decrate pp pct =
    let nval = clamp_rate pp (pp.pps * pct % u32 / 100) in
    if not (nval == pp.pps) then (nval, store_rate pp nval) else (nval, pp)

pub pps_change_pps : Pps → ℕ → ℕ × Pps
unfolding periodic_change_rate
pps_change_pps pp pps =
    let nval = clamp_rate pp ((pp.pps + pps) % u32) in
    if not (nval == pp.pps) then (nval, store_rate pp nval) else (nval, pp)

pub pps_wait : Pps → Timespec → Timespec → Option Timespec × Pps
unfolding periodic_wait
pps_wait pp now later =
    let (ns, periodic) = periodic_wait pp.periodic now later in
    (ns, record pp { periodic = periodic })
