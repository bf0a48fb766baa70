-- ===== src/Tunnel/Receiving.antt =====
-- The egress side of src/iptfs.c as a whole: what tfs_tunnel_egress and the start of read_tfs_pkts set
-- up, and the interleavings of the two threads. A thread that waits takes no step. What
-- malloc returns, the clock, and g_pps, which the ingress side makes, are arguments.
pub mod Fresh
pub mod Counts
pub mod Rounds
mod Tests
use iptfs.Prelude.{
  ℕ, zero, suc, ◌*◌, ◌%◌, ◌≡◌, Bool, true, false, List, [], ◌∷◌, Option, none, some, ltb,
  if◌then◌else◌, u32, Outcome, ok, ◌>>=◌,
}
use iptfs.Mbuf.{Memory, no_acks, incref}
use iptfs.Mqueue.{Mqueue, mqueue_pop}
use iptfs.Miov.{Miov}
use iptfs.Util.Clock.{Timespec, Stimer, st_reset}
use iptfs.Util.RateLimit.{new_ratelimit}
use iptfs.Util.Pps.{Pps}
use iptfs.Ack.{Control}
use iptfs.Egress.{Egress, Next, returns, recurse, add_step}
use iptfs.Egress.Setup.{new_egress}
use iptfs.Egress.Output.{write_intf_pkt}
use iptfs.Receive.{Receiver, report_losses, next_tbuf, receive_datagram, set_mbuf}

-- The buffer `p` has come off the free queue, and has a reference.
abbrev pub with_first : Egress → ℕ → Mqueue → Egress
with_first st p freeq' =
    let st1 = record st { pool = record st.pool { freeq = freeq' } } in
    set_mbuf st1 p (incref (st1.mbufs p))

abbrev pub started : Bool → ℕ → Timespec → Stimer → Control → Egress → ℕ → Mqueue → Receiver
started oneonly congest now unset ctl st p freeq' = record {
  egress = with_first st p freeq';
  tbuf = p;
  rl = if ltb 0 congest then some (new_ratelimit (congest % u32) 0 10) else none;
  acktimer = if oneonly then unset else st_reset now (1000 * 1000000);
  ack = no_acks;
  m = none;
  ctl = ctl;
}

-- The variables of read_tfs_pkts before its loop, with an `ack_rate` of 1000. In one-only mode the
-- timer is never set: `unset` is what is in it.
unfoldable pub new_receiver : Bool → ℕ → Timespec → Stimer → Control → Egress → Outcome Receiver
new_receiver oneonly congest now unset ctl st = mqueue_pop st.pool.freeq >>= λ (p, freeq').
    ok (started oneonly congest now unset ctl st p freeq')

-- What tunnel_egress is called with, and what it finds.
pub record Setup : Type 0 where
  pub oneonly : Bool
  pub tfsmtu : ℕ
  pub congest : ℕ
  pub fresh : Memory
  pub fresh_miovs : ℕ → Miov
  pub now : Timespec
  pub unset : Stimer
  pub pps : Pps

unfoldable pub tunnel_egress : Setup → Outcome Receiver
unfolding new_egress new_receiver
tunnel_egress s = new_egress s.tfsmtu s.fresh s.fresh_miovs >>= λ (st, avgpps, avgdrops).
    new_receiver s.oneonly s.congest s.now s.unset
      (record { pps = s.pps; avgpps = avgpps; avgdrops = avgdrops }) st

-- Where the receiving thread stands in its loop.
pub data Phase : Type 0 where
  at_top : Phase
  -- after "Check to see if we should send ack info"
  reported : Phase
  -- in `recvfrom`
  listening : Phase
  -- in add_to_inner_packet, called with this `new` for `tbuf` and `m`
  cutting : Bool → Phase

-- Where it stands after a datagram, and after an activation of add_to_inner_packet.
abbrev pub after_datagram : Bool → Phase
after_datagram frame = if frame then cutting true else at_top

abbrev pub after_cut : Next → Phase
after_cut (returns m st) = at_top
after_cut (recurse st) = cutting false

abbrev pub with_next : Receiver → Next → Receiver
with_next r (returns m st) = record r { egress = st; m = m }
with_next r (recurse st) = record r { egress = st; m = none }

-- The states that the two threads reach from the state `begin` of the receiving one before its loop. The
-- writing thread may run between any two parts of a round of the receiving one, and between any two
-- activations of add_to_inner_packet, which wait for a free packet before they change anything that the
-- writing thread reads; and the ingress side may change g_pps before a datagram comes. A part itself is
-- one step, next_tbuf for one.
pub data Receiving (oneonly : Bool) (begin : Receiver) : Phase → Receiver → Type 0 where
  start : Receiving oneonly begin at_top begin
  report :
      {r r' : Receiver} {sent : Option (List ℕ)} (now : Timespec)
      → Receiving oneonly begin at_top r
      → report_losses oneonly now r ≡ ok (sent, r')
      → Receiving oneonly begin reported r'
  renew :
      {r r' : Receiver}
      → Receiving oneonly begin reported r
      → next_tbuf r ≡ ok r'
      → Receiving oneonly begin listening r'
  receive :
      {r r' : Receiver} {frame : Bool} (pps : Pps) (now : Timespec) (datagram : Option (List ℕ))
      → Receiving oneonly begin listening r
      → receive_datagram oneonly now (record r { ctl = record r.ctl { pps = pps } }) datagram
        ≡ ok (frame, r')
      → Receiving oneonly begin (after_datagram frame) r'
  cut :
      {r : Receiver} {new : Bool} {next : Next}
      → Receiving oneonly begin (cutting new) r
      → add_step r.egress r.tbuf new r.m ≡ ok next
      → Receiving oneonly begin (after_cut next) (with_next r next)
  write :
      {phase : Phase} {r : Receiver} {bytes : List ℕ} {st : Egress}
      → Receiving oneonly begin phase r
      → write_intf_pkt r.egress ≡ ok (bytes, st)
      → Receiving oneonly begin phase (record r { egress = st })

-- `n` rounds of write_intf_pkts, with what they write.
unfoldable pub write_intf_pkts : ℕ → Egress → Outcome (List (List ℕ) × Egress)
unfolding write_intf_pkt
write_intf_pkts zero st = ok ([], st)
write_intf_pkts (suc n) st = do
  (bytes, st1) ← write_intf_pkt st
  (more, st2) ← write_intf_pkts n st1
  ok (bytes ∷ more, st2)
