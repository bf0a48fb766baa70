-- ===== src/Util/Clock/Laws.antt =====
-- How far clock_delta of src/util.c measures time, and what st_check makes of it.
use iptfs.Prelude.{ℕ, ◌+◌, ◌-◌, ◌*◌, ◌≤◌, ◌<◌, ◌≡◌, ◌↔◌, true, arith, u32}
use iptfs.Util.Clock.{Timespec, nsecs_in_sec, clock_delta, periodic_is_expired}

-- A time as a number of nanoseconds.
abbrev pub nanos : Timespec → ℕ
nanos t = t.tv_sec * nsecs_in_sec + t.tv_nsec

-- What the C library guarantees of a timespec: the nanoseconds are below a second, and the seconds
-- fit 63 bits.
pub record IsNormal (t : Timespec) : Type 0 where
  pub nsec_small : t.tv_nsec < nsecs_in_sec
  pub sec_small : t.tv_sec < 9223372036854775808

module _ {recent past : Timespec} (r : IsNormal recent) (p : IsNormal past) where
  -- For two clock readings at most four seconds apart, the later one given first, clock_delta is the
  -- number of nanoseconds between them.
  pub clock_delta_exact :
      nanos past ≤ nanos recent
      → recent.tv_sec ≤ past.tv_sec + 4
      → clock_delta recent past ≡ nanos recent - nanos past
  unfolding clock_delta
  clock_delta_exact h s = omega arith

  -- Five or more whole seconds apart, and less than 2 ^ 32, clock_delta falls short of the elapsed
  -- time: the product of the seconds is computed in 32 bits.
  pub clock_delta-lt :
      past.tv_sec + 5 ≤ recent.tv_sec
      → recent.tv_sec < past.tv_sec + u32
      → past.tv_nsec ≤ recent.tv_nsec
      → clock_delta recent past < nanos recent - nanos past
  unfolding clock_delta
  clock_delta-lt s b n = omega arith

  -- On two well-formed times, periodic_is_expired compares them as numbers of nanoseconds.
  pub periodic_is_expired_iff :
      (periodic_is_expired recent past ≡ true) ↔ (nanos past < nanos recent)
  unfolding periodic_is_expired
  periodic_is_expired_iff = ground arith
