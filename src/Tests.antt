-- ===== src/Tests.antt =====
-- Runs of the routines of src/util.c, src/mbuf.c and src/iptfs.c on small inputs, and the theorems
-- about them at those inputs.
use iptfs.Prelude.{
  ℕ, ◌+◌, ◌-◌, ◌/◌, ◌%◌, ◌≤◌, ◌<◌, ◌≡◌, ◌≢◌, ◌⊎◌, ◌↔◌, refl, ◌==◌, true, false, List, [], ◌∷◌, ◌++◌,
  length, get_or, drop, sum, replicate, min, none, some, u32, ok, stop, aborted, starved, Returns,
  ◌>>=◌, arith,
}
use iptfs.Bytes.{get8, get32, put32}
use iptfs.Bytes.Laws.{get32-put32}
use iptfs.Mbuf.{Mbuf, Memory, Ackinfo, no_acks, mbuf_len, mbuf_bytes}
use iptfs.Mqueue.{Mqueue, mqueue_pop, mqueue_trypop, mqueue_push}
use iptfs.Mqueue.Stack
use iptfs.Mqueue.Stack.{
  Popped, stack, mqueue_pop_lem, mqueue_trypop_lem, mqueue_push_lem, pop-push_reversed,
}
use iptfs.Util.RunAvg.{runavg_new, runavg_add, add_all}
use iptfs.Util.RunAvg.Laws.{window, runavg_new-IsValid, window-runavg_add}
use iptfs.Util.RunAvg.History.{floored, runavg_history}
use iptfs.Util.Clock.{Timespec, clock_delta, periodic_is_expired}
use iptfs.Util.Clock.Laws.{
  IsNormal, nanos, clock_delta_exact, clock_delta-lt, periodic_is_expired_iff,
}
use iptfs.Util.RateLimit.{RateLimit, limit}
use iptfs.Util.RateLimit.Laws as RateLaws
use iptfs.Util.RateLimit.Laws.{Enforced, limit_enforces, limit-IsValid}
use iptfs.Util.Pps.{Periodic, Pps, pps_new, periodic_wait, pps_incrate, pps_decrate, pps_change_pps}
use iptfs.Util.Pps.Laws as PpsLaws
use iptfs.Util.Pps.Laws.{
  pps_new-IsValid, periodic_wait_lem, pps_change_pps-IsValid, pps_decrate-IsValid,
  pps_incrate-IsValid,
}
use iptfs.Ack.{Control, ack_buffer, send_ack, recv_ack, apply_report}
use iptfs.Ack.RoundTrip.{recv_ack-send_ack}
use iptfs.Ack.Rate.{Handled, recv_ack_outcome}
use iptfs.Egress.{Egress, add_to_inner_packet}
use iptfs.Egress.Aborts.{short_start_aborts}
use iptfs.Egress.Progress.{add_to_inner_packet_ends}

-- A buffer of 20 zero bytes.
abbrev zeros : List ℕ
zeros = replicate 20 0

get32-put32_example :
    (get32 (put32 zeros 4 70000) 4 ≡ 70000)
    × ((j : ℕ) → (j < 4) ⊎ (4 + 4 ≤ j) → get8 (put32 zeros 4 70000) j ≡ get8 zeros j)
get32-put32_example = get32-put32 zeros 4 70000 (omega arith) (omega arith)

abbrev two_values : List ℕ
two_values = 5 ∷ 7 ∷ []

-- Three values in a run of two.
runavg_history_example :
    let (ticked, r) = runavg_add (add_all (runavg_new 2 1) two_values) 9 in
    (ticked ≡ ((length two_values + 1) % 2 == 0))
    × (r.total
        ≡ sum (drop 1 (drop (length two_values) (replicate 2 0 ++ two_values)) ++ 9 ∷ []) % u32)
    × (r.average ≡ floored 2 1 r.total (min 2 (length two_values + 1)))
runavg_history_example =
    runavg_history 2 1 two_values 9 (omega arith) (omega arith, (omega arith, tt)) (omega arith)
      (omega arith)

window-runavg_add_example :
    window (runavg_add (runavg_new 2 1) 5).1 ≡ drop 1 (window (runavg_new 2 1)) ++ 5 ∷ []
window-runavg_add_example = window-runavg_add 5 (runavg_new-IsValid 2 1 (omega arith))

abbrev at_time : ℕ → ℕ → Timespec
at_time s n = record { tv_sec = s; tv_nsec = n }

is_normal : (s n : ℕ) → s < 1000 → n < 1000000000 → IsNormal (at_time s n)
is_normal s n hs hn = record { nsec_small = hn; sec_small = omega (arith, hs) }

at_7_1 : IsNormal (at_time 7 1)
at_7_1 = is_normal 7 1 (omega arith) (omega arith)

at_6_5 : IsNormal (at_time 6 5)
at_6_5 = is_normal 6 5 (omega arith) (omega arith)

at_1_0 : IsNormal (at_time 1 0)
at_1_0 = is_normal 1 0 (omega arith) (omega arith)

clock_delta_exact_example :
    clock_delta (at_time 7 1) (at_time 6 5) ≡ nanos (at_time 7 1) - nanos (at_time 6 5)
clock_delta_exact_example = clock_delta_exact at_7_1 at_6_5 (omega arith) (omega arith)

clock_delta-lt_example :
    clock_delta (at_time 7 1) (at_time 1 0) < nanos (at_time 7 1) - nanos (at_time 1 0)
clock_delta-lt_example = clock_delta-lt at_7_1 at_1_0 (omega arith) (omega arith) (omega arith)

periodic_is_expired_iff_example :
    (periodic_is_expired (at_time 7 1) (at_time 6 5) ≡ true)
    ↔ (nanos (at_time 6 5) < nanos (at_time 7 1))
periodic_is_expired_iff_example = periodic_is_expired_iff at_7_1 at_6_5

-- Four slots, of which the first was last used for 1000 bytes; 8 kbit/s.
abbrev used_limit : RateLimit
used_limit = record {
  rate = 1000;
  overhead = 0;
  count = 4;
  totb = 1000;
  ndrops = 0;
  pktidx = 0;
  times = at_time 6 5 ∷ replicate 3 (at_time 0 0);
  sizes = 1000 ∷ replicate 3 0;
}

used_limit-IsValid : RateLaws.IsValid used_limit
used_limit-IsValid = record {
  sizes_len = refl;
  times_len = refl;
  index_in = omega arith;
  total = omega arith;
  small = λ j. ground arith;
  no_overhead = refl;
}

second_later : 0 < clock_delta (at_time 7 1) (at_time 6 5)
unfolding clock_delta
second_later = omega arith

limit_enforces_example :
    Returns (Enforced used_limit 500 (at_time 7 1)) (limit used_limit 500 (at_time 7 1))
limit_enforces_example =
    limit_enforces (at_time 7 1) used_limit-IsValid (omega arith) (omega arith) (omega arith)
      second_later

abbrev limit_after : RateLimit
limit_after = record used_limit {
  totb = 500;
  pktidx = 1;
  times = at_time 7 1 ∷ replicate 3 (at_time 0 0);
  sizes = 500 ∷ replicate 3 0;
}

limit_passes : limit used_limit 500 (at_time 7 1) ≡ ok (false, limit_after)
unfolding limit clock_delta
limit_passes = refl

limit-IsValid_example : RateLaws.IsValid limit_after
limit-IsValid_example =
    limit-IsValid {n = 500} used_limit-IsValid (omega arith) (at_time 7 1) limit_passes

abbrev rate_100 : Pps
rate_100 = pps_new (at_time 6 5) 100 10000000

rate_100-IsValid : PpsLaws.IsValid rate_100
rate_100-IsValid = pps_new-IsValid (at_time 6 5) 100 10000000 (omega arith) (omega arith) refl

pps_change_pps-IsValid_example :
    let (nval, pp') = pps_change_pps rate_100 7 in
    PpsLaws.IsValid pp' × (pp'.target_pps ≡ rate_100.target_pps) × (nval ≡ pp'.pps)
pps_change_pps-IsValid_example = pps_change_pps-IsValid rate_100-IsValid 7

pps_decrate-IsValid_example :
    let (nval, pp') = pps_decrate rate_100 75 in
    PpsLaws.IsValid pp' × (pp'.target_pps ≡ rate_100.target_pps) × (nval ≡ pp'.pps)
pps_decrate-IsValid_example = pps_decrate-IsValid rate_100-IsValid 75

rate_105 : (rate_100.pps + 5) % u32 ≢ 0
unfolding pps_new
rate_105 = omega arith

pps_incrate-IsValid_example :
    Returns (λ r. PpsLaws.IsValid r.1 × (r.0 ≡ r.1.pps)) (pps_incrate rate_100 5)
pps_incrate-IsValid_example = pps_incrate-IsValid rate_100-IsValid 5 rate_105

abbrev tenth : Periodic
tenth = record { timestamp = at_time 6 5; ival = 100000000 }

periodic_wait_lem_example :
    let (sleep, pp') = periodic_wait tenth (at_time 6 7) (at_time 6 200000000) in
    ((sleep ≡ none)
        × (nanos tenth.timestamp + tenth.ival < nanos (at_time 6 7))
        × (pp'.timestamp ≡ at_time 6 7)
      ⊎ ((ns : Timespec) × (sleep ≡ some ns)
          × (nanos (at_time 6 7) + nanos ns ≡ nanos tenth.timestamp + tenth.ival)
          × (ns.tv_nsec < 1000000000)
          × (pp'.timestamp ≡ at_time 6 200000000)))
    × (pp'.ival ≡ tenth.ival)
periodic_wait_lem_example =
    periodic_wait_lem tenth (at_time 6 7) (at_time 6 200000000) at_6_5
      (is_normal 6 7 (omega arith) (omega arith)) (omega arith) (omega arith)

-- The record of 3 drops among the frames 10 to 90, and the mbuf that holds its report.
abbrev loss : Ackinfo
loss = record { start = 10; last = 90; ndrop = 3 }

abbrev buffer_of : List ℕ → Mbuf
buffer_of bytes = record { space = bytes; espace = 32; start = 0; end = 20; left = 0; refcnt = 1 }

-- A control block one report before the end of a round of two.
abbrev control : Control
control = record {
  pps = rate_100;
  avgpps = (runavg_add (runavg_new 2 1) 80).1;
  avgdrops = (runavg_add (runavg_new 2 1) 5).1;
}

buffer_20 : mbuf_bytes (buffer_of (ack_buffer (at_time 7 1) loss)) ≡ ack_buffer (at_time 7 1) loss
unfolding ack_buffer put32
buffer_20 = refl

recv_ack-send_ack_example :
    let m = buffer_of (ack_buffer (at_time 7 1) loss) in
    (send_ack false (at_time 7 1) loss ≡ ok (some (mbuf_bytes m), no_acks))
    × (get32 m.space (m.start + 4) / 1073741824 ≡ 1)
    × (recv_ack false control m ≡ apply_report control (min 3 16777215) 10 90)
recv_ack-send_ack_example =
    recv_ack-send_ack control (at_time 7 1) loss (buffer_of (ack_buffer (at_time 7 1) loss))
      (omega arith) (omega arith) (omega arith) buffer_20 refl

recv_ack_outcome_example :
    let m = buffer_of (ack_buffer (at_time 7 1) loss) in
    Handled false control m (recv_ack false control m)
recv_ack_outcome_example =
    recv_ack_outcome false control (buffer_of (ack_buffer (at_time 7 1) loss)) rate_100-IsValid

small : rate_100.target_pps + 1 < u32
unfolding pps_new
small = omega arith

abbrev memory : Memory
memory p = buffer_of zeros

-- Two of four slots in use.
abbrev queue : Mqueue
queue = record { queue = 0 ∷ 1 ∷ 0 ∷ 0 ∷ []; size = 4; depth = 2; hdrspace = 0; ackinfo = no_acks }

queue-IsValid : Stack.IsValid queue
queue-IsValid = record { storage = refl; depth_in = omega arith }

mqueue_pop_lem_example : Popped queue (mqueue_pop queue)
mqueue_pop_lem_example = mqueue_pop_lem queue-IsValid

abbrev limit_10 : ℕ
limit_10 = 10

mqueue_trypop_lem_example :
    let (m, mq') = mqueue_trypop memory queue limit_10 in
    ((m ≡ none)
      × (mq' ≡ queue)
      × ((stack queue ≡ [])
          ⊎ ((limit_10 ≢ 0) × (limit_10 < mbuf_len (memory (get_or (stack queue) 0 0))))))
    ⊎ ((p : ℕ) × (m ≡ some p)
        × (stack queue ≡ p ∷ stack mq')
        × ((limit_10 ≡ 0) ⊎ (mbuf_len (memory p) ≤ limit_10))
        × Stack.IsValid mq')
mqueue_trypop_lem_example = mqueue_trypop_lem memory limit_10 queue-IsValid

pop-push_reversed_example :
    Returns
      (λ (p, q, mq'). (p ≡ 8) × (q ≡ 7) × (stack mq' ≡ stack queue))
      (do
        (_, mem1, mq1) ← mqueue_push memory queue 7 false
        (_, mem2, mq2) ← mqueue_push mem1 mq1 8 false
        (p, mq3) ← mqueue_pop mq2
        (q, mq4) ← mqueue_pop mq3
        ok (p, q, mq4))
pop-push_reversed_example = pop-push_reversed memory 7 8 queue-IsValid (omega arith)

-- The receiver with a first piece of three bytes in the packet 0, of unknown length.
abbrev receiver : Egress
receiver = record {
  pool = record { mbufs = memory; freeq = queue };
  miovs = λ p. record { iov = []; mbufs = []; len = 3; left = 0; maxiov = 4 };
  iovfreeq = record { has_freeq = true; queue = 1 ∷ 2 ∷ []; size = 2; depth = 2 };
  outq = record { has_freeq = false; queue = 0 ∷ 0 ∷ []; size = 2; depth = 0 };
}

short_start_aborts_example : add_to_inner_packet 1 receiver 5 true (some 0) ≡ stop aborted
short_start_aborts_example =
    short_start_aborts 0 receiver 5 0 (omega arith) refl (omega arith) (omega arith)

add_to_inner_packet_ends_example : add_to_inner_packet 21 receiver 5 true none ≢ stop starved
add_to_inner_packet_ends_example =
    add_to_inner_packet_ends 21 receiver 5 true none (omega arith) refl
