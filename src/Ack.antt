-- ===== src/Ack.antt =====
-- send_ack and recv_ack of src/iptfs.c: the receiver reports losses, and the sender adjusts its rate.
pub mod RoundTrip
pub mod Rate
use iptfs.Prelude.{
  ℕ, ◌+◌, ◌-◌, ◌*◌, ◌/◌, ◌%◌, Bool, true, false, not, List, [], ◌∷◌, ◌++◌, Option, none, some,
  replicate, ltb, ◌==◌, if◌then◌else◌, min, u32, Outcome, ok, aborted, divided_by_zero, guard,
  ◌>>=◌, ◌>>◌,
}
use iptfs.Bytes.{put32, get32}
use iptfs.Mbuf.{Ackinfo, no_acks, Mbuf, mbuf_len}
use iptfs.Util.RunAvg.{RunAvg, runavg_add}
use iptfs.Util.Clock.{Timespec}
use iptfs.Util.Pps.{Pps, pps_change_pps}

-- The globals g_pps, g_avgpps and g_avgdrops.
pub record Control : Type 0 where
  pub pps : Pps
  pub avgpps : RunAvg
  pub avgdrops : RunAvg

-- `ndrop`, but at most 0xFFFFFF
abbrev pub capped_drops : ℕ → ℕ
capped_drops ndrop = if ltb 16777215 ndrop then 16777215 else ndrop

-- `buffer` once it is filled. The bit 0x40000000 lies above the 24 bits of `ndrop`, so `|` adds it.
unfoldable pub ack_buffer : Timespec → Ackinfo → List ℕ
unfolding put32
ack_buffer now ack =
    let buffer = 255 ∷ 255 ∷ 255 ∷ 255 ∷ replicate 16 0 in
    let b1 = put32 buffer 4 (1073741824 + capped_drops ack.ndrop) in
    let b2 = put32 b1 8 ((now.tv_sec * 1000 + now.tv_nsec / 1000000) % u32) in
    let b3 = put32 b2 12 ack.start in put32 b3 16 ack.last

-- The datagram that is sent, if any, and the record after the call. What `send` returns only feeds a
-- warning.
unfoldable pub send_ack : Bool → Timespec → Ackinfo → Outcome (Option (List ℕ) × Ackinfo)
unfolding ack_buffer
send_ack oneonly now ack =
    guard (not oneonly) aborted
    >> (if ack.start == 0 then ok (none, ack) else ok (some (ack_buffer now ack), no_acks))

-- The rate follows the average number of drops. The percentage of drops is computed for a log line;
-- only its division can matter.
unfoldable pub adjust_rate : Control → Outcome Control
adjust_rate ctl =
    if ctl.avgdrops.average == 0
    then ok (record ctl { pps = (pps_change_pps ctl.pps 1).1 })
    else (guard (not (ctl.avgpps.average == 0)) divided_by_zero
        >> ok
            (record ctl { pps = (pps_change_pps ctl.pps ((u32 - ctl.avgdrops.average) % u32)).1 }))

-- From "Unpack congestion information" on: `ndrop` packets lost, out of those from `start` to `end`.
unfoldable pub apply_report : Control → ℕ → ℕ → ℕ → Outcome Control
unfolding adjust_rate
apply_report ctl ndrop start end =
    let (_, avgpps') = runavg_add ctl.avgpps ((end + u32 - start) % u32) in
    let (ticked, avgdrops') = runavg_add ctl.avgdrops ndrop in
    let ctl' : Control = record ctl { avgpps = avgpps'; avgdrops = avgdrops' } in
    if ltb end start then ok ctl else if not ticked then ok ctl' else adjust_rate ctl'

unfoldable pub recv_ack : Bool → Control → Mbuf → Outcome Control
recv_ack oneonly ctl m =
    if oneonly
    then ok ctl
    else if not (mbuf_len m == 20)
    then ok ctl
    else (guard (get32 m.space m.start == 4294967295) aborted
        >> apply_report ctl (get32 m.space (m.start + 4) % 16777216) (get32 m.space (m.start + 12))
            (get32 m.space (m.start + 16)))
