-- ===== src/Ack/Rate.antt =====
-- How recv_ack of src/iptfs.c moves the sending rate.
use iptfs.Prelude.{
  false, ℕ, ◌+◌, ◌-◌, ◌%◌, ◌≤◌, ◌≡◌, ◌≢◌, ◌⊎◌, Bool, true, u32, Outcome, ok, stop, aborted,
  divided_by_zero, arith,
}
use iptfs.Bytes.{get32}
use iptfs.Mbuf.{Mbuf, mbuf_len}
use iptfs.Util.RunAvg.{RunAvg, runavg_add}
use iptfs.Util.Pps.Laws.{IsValid, pps_change_pps-IsValid}
use iptfs.Ack.{Control, apply_report, recv_ack}

-- The averages after a report.
abbrev pub next_avgpps : Control → ℕ → ℕ → RunAvg
next_avgpps ctl start end = (runavg_add ctl.avgpps ((end + u32 - start) % u32)).1

abbrev pub next_avgdrops : Control → ℕ → RunAvg
next_avgdrops ctl ndrop = (runavg_add ctl.avgdrops ndrop).1

-- The report has a range in order and completes a round of averages, with drops on average but no packets.
abbrev pub Divides : Control → ℕ → ℕ → ℕ → Type 0
Divides ctl ndrop start end =
    (start ≤ end)
    × ((runavg_add ctl.avgdrops ndrop).0 ≡ true)
    × ((next_avgdrops ctl ndrop).average ≢ 0)
    × ((next_avgpps ctl start end).average ≡ 0)

-- What a call of recv_ack may come to.
abbrev pub Handled : Bool → Control → Mbuf → Outcome Control → Type 0
Handled oneonly ctl m (ok ctl') =
    IsValid ctl'.pps
    × (ctl'.pps.target_pps ≡ ctl.pps.target_pps)
    × (oneonly ≡ false → mbuf_len m ≡ 20 → get32 m.space m.start ≡ 4294967295)
    × ¬ (
        (oneonly ≡ false)
        × (mbuf_len m ≡ 20)
        × Divides ctl (get32 m.space (m.start + 4) % 16777216) (get32 m.space (m.start + 12))
            (get32 m.space (m.start + 16)))
Handled oneonly ctl m (stop e) =
    (oneonly ≡ false)
    × (mbuf_len m ≡ 20)
    × ((e ≡ aborted) × (get32 m.space m.start ≢ 4294967295)
        ⊎ (e ≡ divided_by_zero)
          × (get32 m.space m.start ≡ 4294967295)
          × Divides ctl (get32 m.space (m.start + 4) % 16777216) (get32 m.space (m.start + 12))
              (get32 m.space (m.start + 16)))

-- From a valid sending rate, recv_ack on any packet either returns with a valid rate, between 1 and the
-- unchanged target, or stops in one of two ways, both on a packet of 20 bytes outside the one-packet
-- mode: the assertion fails exactly where the first word is not 0xFFFFFFFF, and otherwise the process
-- divides by zero exactly where the range of the report is in order, it completes a round of averages,
-- and the average number of packets in the reports is then 0 and the average number of drops is not.
pub recv_ack_outcome :
    (oneonly : Bool) (ctl : Control) (m : Mbuf)
    → IsValid ctl.pps
    → Handled oneonly ctl m (recv_ack oneonly ctl m)
unfolding recv_ack apply_report
recv_ack_outcome oneonly ctl m v =
    let drops = (next_avgdrops ctl (get32 m.space (m.start + 4) % 16777216)).average in
    ground (arith, pps_change_pps-IsValid v 1, pps_change_pps-IsValid v ((u32 - drops) % u32))
