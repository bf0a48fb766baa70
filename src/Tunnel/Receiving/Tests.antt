-- ===== src/Tunnel/Receiving/Tests.antt =====
-- A tunnel of src/iptfs.c that has received a frame with one packet.
use iptfs.Prelude.{
  true, subst, Whenever, Whenever-Returns, ℕ, ◌+◌, ◌≡◌, refl, ◌&&◌, false, List, [], ◌∷◌, ◌++◌, map,
  replicate, count, none, some, ltb, ◌==◌, if◌then◌else◌, Outcome, ok, stop, Returns, arith,
}
use iptfs.Iovec.{gather}
use iptfs.Mbuf.{Mbuf, Memory, mbuf_reset}
use iptfs.Mqueue.{mqueue_new, mqueue_new_freeq, mqueue_pop, fill_freeq}
use iptfs.Mqueue.Stack.{ptrs, stack}
use iptfs.Miov.{miovq_pop, miovq_push, miov_addmbuf, miovq_new, miovq_new_freeq, fill_miovq}
use iptfs.Miov.References.{refs}
use iptfs.Miov.Counts.{buffers}
use iptfs.Util.Clock.{Timespec, st_reset, clock_delta, st_check}
use iptfs.Util.Pps.{pps_new}
use iptfs.Egress.{
  take_piece, start_packet, rest_of_packet, finish_packet, split_payload, inner_packet, add_step,
  Next, add_to_inner_packet,
}
use iptfs.Egress.Pieces.{pile, content}
use iptfs.Egress.Counted.{held}
use iptfs.Egress.Carry.{all_miovs}
use iptfs.Egress.Setup.{new_egress}
use iptfs.Bytes.{get16, get32}
use iptfs.Ingress.{frame_header}
use iptfs.Egress.Tests.{packet, packet-IsIpv4}
use iptfs.Receive.Counting.{AllCounted, set_mbuf-Counted, next_tbuf-Counted}
use iptfs.Receive.Recovery.{Recovered, data_frame-loss}
use iptfs.Receive.{
  receive_bytes, set_mbuf, Receiver, check_seq, report_losses, next_tbuf, receive_datagram,
  receive_round, handle_datagram, take_frame, over_limit, dispatch, accept_frame, data_frame,
}
use iptfs.Tunnel.Receiving.{
  with_next, cut, Setup, new_receiver, tunnel_egress, Receiving, at_top, start, report, renew,
  receive, write_intf_pkts,
}
use iptfs.Tunnel.Receiving.Fresh.{IsFresh, tunnel_egress-Counted}
use iptfs.Tunnel.Receiving.Counts.{Receiving-Counted, buffers_accounted, finished_written}

abbrev one_second : Timespec
one_second = record { tv_sec = 1; tv_nsec = 0 }

abbrev fresh_buffers : Memory
fresh_buffers p = record {
  space = replicate 64 0;
  espace = 0;
  start = 0;
  end = 0;
  left = 0;
  refcnt = 0;
}

abbrev setup : Setup
setup = record {
  oneonly = false;
  tfsmtu = 1500;
  congest = 0;
  fresh = fresh_buffers;
  fresh_miovs = λ p. record { iov = []; mbufs = []; len = 0; left = 0; maxiov = 0 };
  now = one_second;
  unset = record { ts = one_second; nsecs = 0 };
  pps = pps_new one_second 10 100000000;
}

setup-IsFresh : IsFresh setup
setup-IsFresh = record {
  mtu = omega arith;
  unused = λ p. refl;
  no_pieces = λ p. (refl, refl, refl);
}

abbrev value_or {ℓ} : {A : Type ℓ} → A → Outcome A → A
value_or d (ok a) = a
value_or d (stop e) = d

-- The frame 5 with one IPv4 packet of 20 bytes.
abbrev frame_5 : List ℕ
frame_5 = 0 ∷ 0 ∷ 0 ∷ 5 ∷ 0 ∷ 0 ∷ 0 ∷ 0 ∷ packet 7

abbrev starts : (r : Receiver) × (tunnel_egress setup ≡ ok r)
unfolding tunnel_egress new_egress new_receiver mqueue_new_freeq mqueue_new fill_freeq miovq_new
    miovq_new_freeq fill_miovq mqueue_pop
starts = (_, refl)

-- The receiving buffer is used again.
abbrev listens : (r : Receiver) × (next_tbuf starts.0 ≡ ok r)
unfolding next_tbuf mbuf_reset starts
listens = (_, refl)

abbrev receives :
    (r : Receiver) × (receive_datagram false one_second listens.0 (some frame_5) ≡ ok (true, r))
unfolding receive_datagram over_limit dispatch accept_frame check_seq get32 starts listens
receives = (_, refl)

-- The frame is cut.
abbrev cuts :
    (next : Next) × (add_step receives.0.egress receives.0.tbuf true receives.0.m ≡ ok next)
unfolding add_step inner_packet split_payload start_packet take_piece rest_of_packet finish_packet
    miovq_pop miovq_push miov_addmbuf get16 starts listens receives
cuts = (_, refl)

no_report : report_losses false one_second starts.0 ≡ ok (none, starts.0)
unfolding report_losses st_check clock_delta st_reset starts
no_report = refl

starts-Counted : AllCounted starts.0
starts-Counted =
    subst (Whenever AllCounted) starts.1 (
      Whenever-Returns AllCounted (tunnel_egress setup) (tunnel_egress-Counted setup setup-IsFresh))

abbrev received : Receiver
received = with_next receives.0 cuts.0

received-Receiving : Receiving false starts.0 at_top received
unfolding starts listens receives cuts
received-Receiving =
    cut
      (receive (pps_new one_second 10 100000000) one_second (some frame_5)
        (renew (report one_second start no_report) listens.1) receives.1)
      cuts.1

buffers_accounted_example :
    ((received.egress.mbufs 255).refcnt
      ≡ refs received.egress.miovs 255 (ptrs received.m ++ pile received.egress.outq)
        + held received.tbuf 255)
    × (count 255 (stack received.egress.pool.freeq)
        ≡ (if ltb 255 buffers && (received.egress.mbufs 255).refcnt == 0 then 1 else 0))
    × (count 255 (all_miovs received.egress received.m) ≡ (if ltb 255 buffers then 1 else 0))
buffers_accounted_example = buffers_accounted false starts-Counted 255 received-Receiving

two_references : (received.egress.mbufs 255).refcnt ≡ 2
unfolding cuts receives listens
two_references = refl

finished_written_example :
    Returns
      (λ (packets, st).
        (packets ≡ map (content received.egress) (pile received.egress.outq))
        × (pile st.outq ≡ [])
        × Receiving false starts.0 at_top (record received { egress = st }))
      (write_intf_pkts received.egress.outq.depth received.egress)
finished_written_example = finished_written false starts-Counted received-Receiving

one_packet : map (content received.egress) (pile received.egress.outq) ≡ packet 7 ∷ []
unfolding cuts receives listens gather
one_packet = refl

abbrev round :
    (r : Receiver) × (receive_round false one_second one_second starts.0 (some frame_5)
      ≡ ok (none, r))
unfolding receive_round report_losses st_check clock_delta st_reset next_tbuf mbuf_reset
    handle_datagram take_frame add_to_inner_packet add_step inner_packet split_payload start_packet
    take_piece rest_of_packet finish_packet miovq_pop miovq_push miov_addmbuf get16 receive_datagram
    over_limit dispatch accept_frame check_seq get32 starts
round = (_, refl)

-- The frame 6 is lost.
abbrev frame_7 : List ℕ
frame_7 = 0 ∷ 0 ∷ 0 ∷ 7 ∷ 0 ∷ 0 ∷ 0 ∷ 3 ∷ 9 ∷ 9 ∷ 9 ∷ packet 8

abbrev next_buffer : (r : Receiver) × (next_tbuf received ≡ ok r)
unfolding next_tbuf mqueue_pop mbuf_reset cuts receives listens starts
next_buffer = (_, refl)

abbrev with_frame_7 : Mbuf → Mbuf
with_frame_7 v = record (receive_bytes v frame_7) { end = v.start + 31 }

abbrev after_loss_of_6 : Receiver
after_loss_of_6 =
    let r = next_buffer.0 in
    record r { egress = set_mbuf r.egress r.tbuf (with_frame_7 (r.egress.mbufs r.tbuf)) }

after_loss_of_6-Counted : AllCounted after_loss_of_6
after_loss_of_6-Counted =
    let r = next_buffer.0 in
    let before : AllCounted r =
      subst (Whenever AllCounted) next_buffer.1
        (next_tbuf-Counted received (Receiving-Counted false starts-Counted received-Receiving)) in
    set_mbuf-Counted r.tbuf (with_frame_7 (r.egress.mbufs r.tbuf)) refl before

data_frame-loss_example :
    Returns (Recovered after_loss_of_6 20 (packet 8 ∷ []) 7) (data_frame after_loss_of_6 7)
unfolding frame_header cuts receives next_buffer starts listens
data_frame-loss_example =
    data_frame-loss after_loss_of_6 20 (9 ∷ 9 ∷ 9 ∷ []) (packet 8 ∷ []) 7 after_loss_of_6-Counted
      (omega arith) (omega arith) (omega arith) (omega arith) (packet-IsIpv4 8, tt) refl
      (record {
        inside = (omega arith, omega arith);
        small = omega arith;
        room = omega arith;
        supply = omega arith;
      })
      (omega arith)
