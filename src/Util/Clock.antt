-- ===== src/Util/Clock.antt =====
-- struct timespec, clock_delta, periodic_is_expired and the stimer of src/util.c. A reading of
-- CLOCK_MONOTONIC is an argument.
pub mod Laws
use iptfs.Prelude.{ℕ, ◌+◌, ◌-◌, ◌*◌, ◌%◌, Bool, true, false, ltb, ◌==◌, if◌then◌else◌, u32, u64}

-- `struct timespec` of the C library. The monotonic clock is never negative.
pub record Timespec : Type 0 where
  pub tv_sec : ℕ
  pub tv_nsec : ℕ

abbrev pub nsecs_in_sec : ℕ
nsecs_in_sec = 1000000000

-- `sdiff` and the product `sdiff * NSECS_IN_SEC` are of type `uint`, the rest is 64 bits wide.
unfoldable pub clock_delta : Timespec → Timespec → ℕ
clock_delta recent past =
    let sdiff = (recent.tv_sec + u64 - past.tv_sec) % u32 in
    let nsecs = (recent.tv_nsec + sdiff * nsecs_in_sec % u32) % u64 in
    (nsecs + u64 - past.tv_nsec) % u64

unfoldable pub periodic_is_expired : Timespec → Timespec → Bool
periodic_is_expired now expire =
    if ltb expire.tv_sec now.tv_sec
    then true
    else if now.tv_sec == expire.tv_sec
    then ltb expire.tv_nsec now.tv_nsec
    else false

-- `stimer_t`
pub record Stimer : Type 0 where
  pub ts : Timespec
  pub nsecs : ℕ

unfoldable pub st_reset : Timespec → ℕ → Stimer
st_reset now nsecs = record { ts = now; nsecs = nsecs }

unfoldable pub st_check : Stimer → Timespec → Bool × Stimer
unfolding clock_delta
st_check t now =
    if ltb (clock_delta now t.ts) t.nsecs then (false, t) else (true, record t { ts = now })
