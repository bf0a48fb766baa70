-- ===== src/Util/RateLimit/Laws.antt =====
-- What limit of src/util.c keeps and enforces.
use native.Mathlib.Nat.{mod-lt, mod-eq_of_lt, div-lt_iff_lt-mul, le-div_iff_mul-le}
use iptfs.Prelude.{
  ℕ, suc, ◌+◌, ◌*◌, ◌/◌, ◌%◌, ◌≤◌, ◌<◌, ◌≡◌, ◌⊎◌, inl, inr, Bool-cases, ◌∙◌, Bool, true, false,
  List, [], ◌∷◌, length, get_or, set, sum, sum-set, get_or-le-sum, length-set, get_or-set_self,
  get_or-set_ne, arith, u16, u32, u64, ok, Returns,
}
use native.Mathlib.Decide.{ℕ_discrete, dec_lt}
use iptfs.Util.Clock.{Timespec, nsecs_in_sec, clock_delta}
use iptfs.Util.RateLimit.{RateLimit, zero_time, new_total, measured_rate, limit}

-- `totb` is the number of bytes in the slots. The overhead is 0, as the only caller has it.
pub record IsValid (rl : RateLimit) : Type 0 where
  pub sizes_len : length rl.sizes ≡ rl.count
  pub times_len : length rl.times ≡ rl.count
  pub index_in : rl.pktidx < rl.count
  pub total : rl.totb ≡ sum rl.sizes % u64
  pub small : (j : ℕ) → get_or rl.sizes j 0 < u16
  pub no_overhead : rl.overhead ≡ 0

module _ {rl : RateLimit} {n : ℕ} (h : IsValid rl) (b : n < u16) where
  new_total-sum : new_total rl n ≡ sum (set rl.sizes rl.pktidx n) % u64
  new_total-sum = omega (
    arith,
    sum-set rl.sizes rl.pktidx n (omega (arith, h.sizes_len, h.index_in)),
    get_or-le-sum rl.sizes rl.pktidx,
    h.small rl.pktidx,
    h.total,
  )

  set-small : (j : ℕ) → get_or (set rl.sizes rl.pktidx n) j 0 < u16
  set-small j = elim (ℕ_discrete rl.pktidx j) [
    | yes e ↦
        rw (← e, get_or-set_self rl.sizes rl.pktidx n 0 (omega (arith, h.sizes_len, h.index_in))) b
    | no e ↦ rw (get_or-set_ne rl.sizes rl.pktidx j n 0 e) (h.small j)
  ]

  -- From a valid limiter without overhead, and for a packet of less than 2 ^ 16 bytes, limit leaves a
  -- valid limiter whenever it returns, whether it drops the packet or not.
  pub limit-IsValid :
      (now : Timespec) {drop : Bool} {rl' : RateLimit}
      → limit rl n now ≡ ok (drop, rl')
      → IsValid rl'
  unfolding limit
  limit-IsValid now {drop} {rl'} e = elim (Bool-cases drop) [
    | inl d ↦ record {
      sizes_len = ground (arith, h.sizes_len, h.no_overhead);
      times_len = ground (arith, h.times_len, h.no_overhead);
      index_in = ground (arith, h.index_in, h.no_overhead);
      total = ground (arith, h.total, h.no_overhead);
      small = λ j. ground (arith, h.small j, h.no_overhead);
      no_overhead = ground (arith, h.no_overhead);
    }
    | inr d ↦ record {
      sizes_len = ground (arith, length-set rl.sizes rl.pktidx n, h.sizes_len, h.no_overhead);
      times_len = ground (arith, length-set rl.times rl.pktidx now, h.times_len);
      index_in =
          ground
            (arith, h.index_in, mod-lt (rl.pktidx + 1) {m = rl.count} (omega (arith, h.index_in)));
      total = ground (arith, new_total-sum, h.no_overhead);
      small = λ j. ground (arith, set-small j, h.no_overhead);
      no_overhead = ground (arith, h.no_overhead);
    }
  ]

sum-le : (xs : List ℕ) (b : ℕ) → ((j : ℕ) → get_or xs j 0 < b) → sum xs ≤ length xs * b
sum-le [] b h = omega arith
sum-le (x ∷ xs) b h = omega (arith, h 0, sum-le xs b (λ j. h (suc j)))

-- What is meant by a decision of `limit` on a packet of `n` bytes at the time `now`.
abbrev pub Enforced : RateLimit → ℕ → Timespec → Bool × RateLimit → Type 0
Enforced rl n now (drop, rl') =
    let bytes = sum (set rl.sizes rl.pktidx n) in
    let delta = clock_delta now (get_or rl.times rl.pktidx zero_time) in
    ((drop ≡ true)
      × ((rl.rate + 1) * delta ≤ bytes * nsecs_in_sec)
      × (rl' ≡ record rl { ndrops = (rl.ndrops + 1) % u64 }))
    ⊎ ((drop ≡ false)
        × (bytes * nsecs_in_sec < (rl.rate + 1) * delta)
        × (rl'.totb ≡ bytes)
        × (rl'.sizes ≡ set rl.sizes rl.pktidx n)
        × (rl'.times ≡ set rl.times rl.pktidx now)
        × (rl'.pktidx ≡ (rl.pktidx + 1) % rl.count)
        × (rl'.ndrops ≡ rl.ndrops))

module _ {rl : RateLimit} {n : ℕ} (now : Timespec) (h : IsValid rl) (b : n < u16)
    (few : rl.count ≤ u16)
    (used : 0
      < (get_or rl.times rl.pktidx zero_time).tv_sec
        + (get_or rl.times rl.pktidx zero_time).tv_nsec)
    (later : 0 < clock_delta now (get_or rl.times rl.pktidx zero_time)) where
  new_total_exact : new_total rl n ≡ sum (set rl.sizes rl.pktidx n)
  new_total_exact =
      new_total-sum h b
      ∙ mod-eq_of_lt (
          omega (
            arith,
            sum-le (set rl.sizes rl.pktidx n) u16 (set-small h b),
            length-set rl.sizes rl.pktidx n,
            h.sizes_len,
          ))

  bytes-le : sum (set rl.sizes rl.pktidx n) ≤ u32
  bytes-le = omega (
    arith,
    sum-le (set rl.sizes rl.pktidx n) u16 (set-small h b),
    length-set rl.sizes rl.pktidx n,
    h.sizes_len,
  )

  measured_rate_lem :
      (ntotb : ℕ)
      → ntotb ≤ u32
      → measured_rate rl ntotb now
        ≡ ok (ntotb * nsecs_in_sec / clock_delta now (get_or rl.times rl.pktidx zero_time))
  measured_rate_lem ntotb small =
      let fits : ntotb * nsecs_in_sec % u64 ≡ ntotb * nsecs_in_sec = omega arith in
      rw fits (ground arith)

  -- For a valid limiter over at most 2 ^ 16 packets, a packet of n < 2 ^ 16 bytes and a slot that was
  -- used and is in the past, limit always returns. Let B be the bytes of the last `count` packets
  -- with this one in the place of the oldest, and D the nanoseconds that clock_delta measures since
  -- that one. A packet that passes keeps B bytes in D within the rate, rounded down to whole bytes a
  -- second, and is recorded in the slot, and the slot after it, in the ring of `count` slots, is the
  -- next one; a packet that is dropped would break it, and only the counter of drops
  -- changes.
  pub limit_enforces : Returns (Enforced rl n now) (limit rl n now)
  unfolding limit
  limit_enforces =
      rw (new_total_exact, measured_rate_lem (sum (set rl.sizes rl.pktidx n)) bytes-le)
        (elim (dec_lt rl.rate quotient) [
          | yes p ↦ ground (
            arith,
            (le-div_iff_mul-le {x = rl.rate + 1} {y = bytes * nsecs_in_sec} later).0 (omega arith),
          )
          | no p ↦ ground (
            arith,
            (div-lt_iff_lt-mul {x = bytes * nsecs_in_sec} {y = rl.rate + 1} later).0 (omega arith),
            h.index_in,
            h.no_overhead,
          )
        ])
    where
      bytes : ℕ
      bytes = sum (set rl.sizes rl.pktidx n)

      quotient : ℕ
      quotient = bytes * nsecs_in_sec / clock_delta now (get_or rl.times rl.pktidx zero_time)
