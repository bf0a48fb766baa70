-- ===== src/Util.antt =====
-- src/util.c: running averages, the congestion rate limiter, clocks and timers, and the packet rate
-- of the sender.
pub mod RunAvg
pub mod Clock
pub mod RateLimit
pub mod Pps
