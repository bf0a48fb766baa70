-- ===== src/Util/RateLimit.antt =====
-- struct ratelimit, new_ratelimit and limit of src/util.c. The reading of CLOCK_MONOTONIC is an
-- argument of `limit`.
pub mod Laws
use iptfs.Prelude.{
  ℕ, ◌+◌, ◌-◌, ◌*◌, ◌/◌, ◌%◌, Bool, true, false, not, ◌||◌, List, get_or, set, replicate, ltb, ◌==◌,
  if◌then◌else◌, u16, u64, Outcome, ok, stop, divided_by_zero, guard, ◌>>=◌, ◌>>◌,
}
use iptfs.Util.Clock.{Timespec, nsecs_in_sec, clock_delta}

pub record RateLimit : Type 0 where
  pub rate : ℕ
  pub overhead : ℕ
  pub count : ℕ
  pub totb : ℕ
  pub ndrops : ℕ
  pub pktidx : ℕ
  pub times : List Timespec
  pub sizes : List ℕ

abbrev pub zero_time : Timespec
zero_time = record { tv_sec = 0; tv_nsec = 0 }

pub new_ratelimit : ℕ → ℕ → ℕ → RateLimit
new_ratelimit rate overhead count = record {
  rate = rate / 8;
  overhead = overhead;
  count = count;
  totb = 0;
  ndrops = 0;
  pktidx = 0;
  times = replicate count zero_time;
  sizes = replicate count 0;
}

-- `ntotb`, the bytes of the last `count` packets with this one in place of the oldest.
abbrev pub new_total : RateLimit → ℕ → ℕ
new_total rl n = (rl.totb + n + u64 - get_or rl.sizes rl.pktidx 0) % u64

-- `rate`, in bytes a second since the time of the slot; 0 for a slot that was never used.
abbrev pub measured_rate : RateLimit → ℕ → Timespec → Outcome ℕ
measured_rate rl ntotb ntime =
    let otime = get_or rl.times rl.pktidx zero_time in
    let delta = clock_delta ntime otime in
    if not (otime.tv_sec == 0) || not (otime.tv_nsec == 0)
    then (guard (not (delta == 0)) divided_by_zero >> ok (ntotb * nsecs_in_sec % u64 / delta))
    else ok 0

-- `true` says that the packet is to be dropped.
unfoldable pub limit : RateLimit → ℕ → Timespec → Outcome (Bool × RateLimit)
limit rl n ntime =
    let ntotb = new_total rl n in
    let size = (if ltb rl.overhead n then n - rl.overhead else n) in
    measured_rate rl ntotb ntime >>= λ rate.
    if ltb rl.rate rate
    then ok (true, record rl { ndrops = (rl.ndrops + 1) % u64 })
    else (guard (not (rl.count == 0)) divided_by_zero
        >> ok (
          false,
          record rl {
            totb = ntotb;
            times = set rl.times rl.pktidx ntime;
            sizes = set rl.sizes rl.pktidx (size % u16);
            pktidx = (rl.pktidx + 1) % rl.count;
          },
        ))
