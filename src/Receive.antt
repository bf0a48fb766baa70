-- ===== src/Receive.antt =====
-- read_tfs_pkts of src/iptfs.c: one round of the loop of the receiving thread. The datagram that
-- `recvfrom` returns, if any, and the clock readings are arguments.
mod Tests
pub mod Losses
pub mod Counting
pub mod Recovery
use iptfs.Prelude.{
  ℕ, zero, suc, ◌+◌, ◌-◌, ◌*◌, ◌/◌, ◌%◌, Bool, true, false, not, ◌&&◌, List, [], ◌∷◌, ◌++◌, length,
  take, drop, Option, none, some, ltb, leb, ◌==◌, if◌then◌else◌, u32, Outcome, ok, stop, guard,
  ◌>>=◌, ◌>>◌,
}
use iptfs.Bytes.{get32}
use iptfs.Mbuf.{Ackinfo, Mbuf, Memory, store, decref, mbuf_len, mbuf_reset}
use iptfs.Mqueue.{Mqueue, mqueue_pop}
use iptfs.Miov.{Miov, Miovq, Pool, miov_reset}
use iptfs.Util.Clock.{Timespec, Stimer, st_check}
use iptfs.Util.RateLimit.{RateLimit, limit}
use iptfs.Ingress.{hdrspace}
use iptfs.Ack.{Control, send_ack, recv_ack}
use iptfs.Egress.{Egress, add_to_inner_packet}

-- What the loop makes of a sequence number: a duplicate or an old frame, a frame after a gap, or the
-- next one, each with the record of losses after it.
pub data Arrival : Type 0 where
  duplicate : Ackinfo → Arrival
  after_loss : Ackinfo → Arrival
  in_order : Ackinfo → Arrival

-- `if (ack.start == 0) ack.start = seq;`
abbrev pub set_first : Ackinfo → ℕ → Ackinfo
set_first ack seq = if ack.start == 0 then record ack { start = seq } else ack

unfoldable pub check_seq : Ackinfo → ℕ → Arrival
check_seq ack seq =
    let ack1 = set_first ack seq in
    let next = (ack1.last + 1) % u32 in
    let ndrop = (seq + u32 - next) % u32 in
    if leb seq ack1.last
    then duplicate ack1
    else if not (seq == next) && not (ack1.last == 0)
    then after_loss (record ack1 { ndrop = (ack1.ndrop + ndrop) % u32; last = seq })
    else in_order (record ack1 { last = seq })

-- The local variables of read_tfs_pkts, the buffers and queues, and the globals that recv_ack uses.
pub record Receiver : Type 0 where
  pub egress : Egress
  pub tbuf : ℕ
  pub rl : Option RateLimit
  pub acktimer : Stimer
  pub ack : Ackinfo
  pub m : Option ℕ
  pub ctl : Control

abbrev pub set_mbuf : Egress → ℕ → Mbuf → Egress
set_mbuf st p v = record st { pool = record st.pool { mbufs = store st.mbufs p v } }

-- "Check to see if we should send ack info"
unfoldable pub report_losses : Bool → Timespec → Receiver → Outcome (Option (List ℕ) × Receiver)
report_losses oneonly now r =
    let (expired, timer) = st_check r.acktimer now in
    if oneonly
    then ok (none, r)
    else if expired
    then (send_ack oneonly timer.ts r.ack >>= λ (sent, ack).
        ok (sent, record r { acktimer = timer; ack = ack }))
    else ok (none, record r { acktimer = timer })

-- "If no one referenced the mbuf reset and re-use it", else take another one.
unfoldable pub next_tbuf : Receiver → Outcome Receiver
next_tbuf r =
    let v = r.egress.mbufs r.tbuf in
    let released = set_mbuf r.egress r.tbuf (decref v) in
    if v.refcnt == 1
    then (mbuf_reset (decref v) hdrspace >>= λ v'.
        ok (record r { egress = set_mbuf released r.tbuf (record v' { refcnt = 1 }) }))
    else (mqueue_pop released.pool.freeq >>= λ (p, freeq').
        let st = record released { pool = record released.pool { freeq = freeq' } } in
        ok (record r { egress = set_mbuf st p (record (st.mbufs p) { refcnt = 1 }); tbuf = p }))

-- `ack.ndrop++`
abbrev pub count_drop : Receiver → Receiver
count_drop r = record r { ack = record r.ack { ndrop = (r.ack.ndrop + 1) % u32 } }

-- `rl && limit(rl, n)`
unfoldable pub over_limit : Option RateLimit → ℕ → Timespec → Outcome (Bool × Option RateLimit)
over_limit none n now = ok (false, none)
over_limit (some rl) n now = limit rl n now >>= λ (dropped, rl'). ok (dropped, some rl')

-- "drop any in-progress inner packet reconstruction"
unfoldable pub drop_partial : Receiver → Outcome Receiver
drop_partial r = elim r.m [
  | none ↦ ok r
  | some p ↦
      (miov_reset r.egress.pool (r.egress.miovs p) >>= λ (pool', v).
      ok (record r { egress = record r.egress { pool = pool'; miovs = store r.egress.miovs p v } }))
]

-- `m = add_to_inner_packet(tbuf, true, m, …)`, which ends within as many calls as there are bytes.
unfoldable pub take_frame : Receiver → Outcome Receiver
take_frame r =
    add_to_inner_packet (mbuf_len (r.egress.mbufs r.tbuf) + 1) r.egress r.tbuf true r.m
    >>= λ (m', st). ok (record r { egress = st; m = m' })

-- The part before that call: whether it is reached, with the state.
unfoldable pub accept_frame : Receiver → ℕ → Outcome (Bool × Receiver)
accept_frame r seq = elim (check_seq r.ack seq) [
  | duplicate ack ↦ ok (false, record r { ack = ack })
  | after_loss ack ↦ (drop_partial (record r { ack = ack }) >>= λ r'. ok (true, r'))
  | in_order ack ↦ ok (true, record r { ack = ack })
]

-- The call, where it is reached.
abbrev pub cut_frame : Bool × Receiver → Outcome Receiver
cut_frame (frame, r) = if frame then take_frame r else ok r

unfoldable pub data_frame : Receiver → ℕ → Outcome Receiver
data_frame r seq = accept_frame r seq >>= cut_frame

-- By the two top bits of the second word: a report, an unknown version, or a data frame. The result
-- says whether there is a frame to cut.
unfoldable pub dispatch : Bool → Receiver → Outcome (Bool × Receiver)
dispatch oneonly r =
    let v = r.egress.mbufs r.tbuf in
    let offset = get32 v.space (v.start + 4) in
    if offset / 1073741824 == 1
    then (recv_ack oneonly r.ctl v >>= λ ctl'. ok (false, record r { ctl = ctl' }))
    else if not (offset / 2147483648 == 0)
    then ok (false, count_drop r)
    else accept_frame r (get32 v.space v.start)

-- `recvfrom` writes the datagram at `start`.
abbrev pub receive_bytes : Mbuf → List ℕ → Mbuf
receive_bytes v bytes = record v {
  space = take v.start v.space ++ (bytes ++ drop (v.start + length bytes) v.space);
}

-- What happens to a datagram before it is cut, and to a failed call.
unfoldable pub receive_datagram :
    Bool → Timespec → Receiver → Option (List ℕ) → Outcome (Bool × Receiver)
receive_datagram oneonly now r none = ok (false, r)
receive_datagram oneonly now r (some bytes) =
    let v = receive_bytes (r.egress.mbufs r.tbuf) bytes in
    let r1 = record r { egress = set_mbuf r.egress r.tbuf v } in
    if length bytes == 0
    then ok (false, r1)
    else if ltb (length bytes) 8
    then ok (false, count_drop r1)
    else (over_limit r.rl (length bytes) now >>= λ (dropped, rl').
        let r2 = record r1 { rl = rl' } in
        if dropped
        then ok (false, count_drop r2)
        else dispatch oneonly (record r2 {
          egress = set_mbuf r2.egress r.tbuf (record v { end = v.start + length bytes });
        }))

unfoldable pub handle_datagram : Bool → Timespec → Receiver → Option (List ℕ) → Outcome Receiver
handle_datagram oneonly now r datagram = receive_datagram oneonly now r datagram >>= cut_frame

-- One round of the loop: the report that was sent, if any, and the state.
unfoldable pub receive_round :
    Bool → Timespec → Timespec → Receiver → Option (List ℕ) → Outcome (Option (List ℕ) × Receiver)
receive_round oneonly now later r datagram = do
  (sent, r1) ← report_losses oneonly now r
  r2 ← next_tbuf r1
  r3 ← handle_datagram oneonly later r2 datagram
  ok (sent, r3)
