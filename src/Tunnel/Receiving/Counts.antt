-- ===== src/Tunnel/Receiving/Counts.antt =====
-- The egress side of src/iptfs.c loses no buffer and no packet, and writes what it has finished.
use iptfs.Prelude.{
  Bool, ℕ, zero, suc, ◌+◌, ◌≡◌, refl, ap, ◌∙◌, sym, subst, ◌&&◌, [], ◌∷◌, ◌++◌, map, count, ltb,
  ◌==◌, if◌then◌else◌, Returns, Returns-value, Whenever, arith,
}
use iptfs.Mqueue.Stack.{ptrs, stack, below}
use iptfs.Miov.References.{refs, refs-empty, refs-append}
use iptfs.Miov.Counts.{buffers}
use iptfs.Egress.Pieces.{pile, content}
use iptfs.Egress.Carry.{all_miovs}
use iptfs.Egress.Output.{write_intf_pkt}
use iptfs.Egress.{Next, returns, recurse}
use iptfs.Egress.Counting.{CountedNext, add_step-Counted}
use iptfs.Egress.Counted.{held}
use iptfs.Egress.Returned.{write_intf_pkt-Counted, write_intf_pkt-Passed}
use iptfs.Receive.{Receiver}
use iptfs.Receive.Counting.{
  AllCounted, report_losses-Counted, next_tbuf-Counted, receive_datagram-Counted,
}
use iptfs.Tunnel.Receiving.{
  with_next, cut, Receiving, Phase, start, report, renew, receive, write, write_intf_pkts,
}

with_next-Counted :
    (r : Receiver) (next : Next) → CountedNext r.tbuf next → AllCounted (with_next r next)
with_next-Counted r (returns m st) c = c
with_next-Counted r (recurse st) c = c

module _ (oneonly : Bool) {begin : Receiver} (counted : AllCounted begin) where
  pub Receiving-Counted :
      {phase : Phase} {r : Receiver} → Receiving oneonly begin phase r → AllCounted r
  Receiving-Counted start = counted
  Receiving-Counted (report {r} now before e) =
      subst (Whenever (λ x. AllCounted x.1)) e
        (report_losses-Counted oneonly now r (Receiving-Counted before))
  Receiving-Counted (renew {r} before e) =
      subst (Whenever AllCounted) e (next_tbuf-Counted r (Receiving-Counted before))
  Receiving-Counted (receive {r} pps now datagram before e) =
      subst (Whenever (λ x. AllCounted x.1)) e (
        receive_datagram-Counted oneonly now (record r { ctl = record r.ctl { pps = pps } })
          datagram (Receiving-Counted before))
  Receiving-Counted (cut {r} {new} {next} before e) = with_next-Counted r next (
      subst (Whenever (CountedNext r.tbuf)) e
        (add_step-Counted r.egress new r.m (Receiving-Counted before)))
  Receiving-Counted (write {r} before e) =
      (write_intf_pkt-Passed r.egress (Receiving-Counted before) e).counted

  -- From a state of the receiving thread with valid queues, exact reference counts, and each of
  -- the 256 packets in just one place, the free ones empty, and with room for at most 10000
  -- pieces: in every state that the two threads of the egress side reach, with any datagrams,
  -- where the writing thread runs between the parts of a round of the receiving one and between
  -- the activations of add_to_inner_packet: the count of each buffer is the number of its pieces
  -- in the packet at hand and the finished packets, and one more for the buffer in use; each of
  -- the 256 buffers is on the free queue once if its count is 0 and else not at all; and each of
  -- the 256 packets is in just one place: at hand, free or finished.
  pub buffers_accounted :
      {phase : Phase} {r : Receiver} (q : ℕ)
      → Receiving oneonly begin phase r
      → ((r.egress.mbufs q).refcnt
          ≡ refs r.egress.miovs q (ptrs r.m ++ pile r.egress.outq) + held r.tbuf q)
        × (count q (stack r.egress.pool.freeq)
            ≡ (if ltb q buffers && (r.egress.mbufs q).refcnt == 0 then 1 else 0))
        × (count q (all_miovs r.egress r.m) ≡ (if ltb q buffers then 1 else 0))
  buffers_accounted {r} q reached =
      let c = Receiving-Counted reached in
      let free = pile r.egress.iovfreeq in
      let none_free = refs-empty r.egress.miovs q free (λ x k. (c.placed.empty x k).0) in
      (
        omega (
          arith,
          c.counted.refcnts q,
          none_free,
          refs-append r.egress.miovs q (ptrs r.m) (free ++ pile r.egress.outq),
          refs-append r.egress.miovs q free (pile r.egress.outq),
          refs-append r.egress.miovs q (ptrs r.m) (pile r.egress.outq),
        ),
        ground (arith, c.counted.free q, c.counted.refcnts q),
        c.placed.distinct q,
      )

  -- By induction on the number of finished packets.
  write_intf_pkts-Receiving :
      (n : ℕ) {phase : Phase} {r : Receiver}
      → Receiving oneonly begin phase r
      → r.egress.outq.depth ≡ n
      → Returns
          (λ (packets, st).
            (packets ≡ map (content r.egress) (pile r.egress.outq))
            × (pile st.outq ≡ [])
            × Receiving oneonly begin phase (record r { egress = st }))
          (write_intf_pkts n r.egress)
  unfolding write_intf_pkts
  write_intf_pkts-Receiving zero {r} reached e =
      let empty = ap (below r.egress.outq.queue) e in
      (sym (ap (map (content r.egress)) empty), empty, reached)
  write_intf_pkts-Receiving (suc n) {r} reached e =
      let c = Receiving-Counted reached in
      let ((bytes, st), written, passed) =
        Returns-value (write_intf_pkt r.egress)
          (write_intf_pkt-Counted r.egress c (omega (arith, e))) in
      let ((more, st'), rest, (same, empty, last)) =
        Returns-value (write_intf_pkts n st)
          (write_intf_pkts-Receiving n (write reached written) (omega (arith, e, passed.depth))) in
      rw (written, rest) (ap (λ l. bytes ∷ l) same ∙ sym passed.outputs, empty, last)

  -- In every state that the two threads of the egress side reach from a state with valid queues,
  -- exact reference counts, and each of the 256 packets in just one place, the free ones empty,
  -- and with room for at most 10000 pieces, in the middle of the cutting of a frame too, as many
  -- rounds of write_intf_pkts as there are finished packets do not wait: they write the bytes of
  -- all of them, the one finished last first, and leave a state that is reached too, in which
  -- none is finished.
  pub finished_written :
      {phase : Phase} {r : Receiver}
      → Receiving oneonly begin phase r
      → Returns
          (λ (packets, st).
            (packets ≡ map (content r.egress) (pile r.egress.outq))
            × (pile st.outq ≡ [])
            × Receiving oneonly begin phase (record r { egress = st }))
          (write_intf_pkts r.egress.outq.depth r.egress)
  finished_written {r} reached = write_intf_pkts-Receiving r.egress.outq.depth reached refl
