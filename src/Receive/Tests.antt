-- ===== src/Receive/Tests.antt =====
-- Runs of the receiving loop of src/iptfs.c on small inputs.
use iptfs.Prelude.{
  ℕ, ◌+◌, ◌-◌, ◌≡◌, refl, true, false, List, [], ◌∷◌, replicate, Option, none, some, Outcome, ok,
  stop, arith,
}
use iptfs.Iovec.{Iovec, in_mbuf}
use iptfs.Mbuf.{Memory, no_acks, mbuf_reset}
use iptfs.Miov.{miovq_pop, miovq_push, miov_addmbuf}
use iptfs.Util.RunAvg.{runavg_new}
use iptfs.Util.Clock.{Timespec, clock_delta, st_check}
use iptfs.Util.Pps.{pps_new}
use iptfs.Bytes.{get16, get32}
use iptfs.Egress.{
  take_piece, start_packet, rest_of_packet, finish_packet, split_payload, inner_packet, add_step,
  add_to_inner_packet,
}
use iptfs.Receive.{
  Receiver, check_seq, report_losses, next_tbuf, handle_datagram, receive_datagram, accept_frame,
  over_limit, dispatch, data_frame, take_frame, receive_round,
}
use iptfs.Receive.Losses.{after_all, highest, kept, losses_lem}

abbrev zero_time : Timespec
zero_time = record { tv_sec = 1; tv_nsec = 0 }

-- Buffers of 64 bytes. Every reference count is 1, as the one of the receiving buffer 0 is.
abbrev memory : Memory
memory p = record {
  space = replicate 64 0;
  espace = 64;
  start = 24;
  end = 24;
  left = 0;
  refcnt = 1;
}

abbrev receiver : Receiver
receiver = record {
  egress = record {
    pool = record {
      mbufs = memory;
      freeq = record { queue = 1 ∷ []; size = 1; depth = 1; hdrspace = 24; ackinfo = no_acks };
    };
    miovs = λ p. record { iov = []; mbufs = []; len = 0; left = 0; maxiov = 4 };
    iovfreeq = record { has_freeq = true; queue = 1 ∷ 2 ∷ []; size = 2; depth = 2 };
    outq = record { has_freeq = false; queue = 0 ∷ 0 ∷ []; size = 2; depth = 0 };
  };
  tbuf = 0;
  rl = none;
  acktimer = record { ts = zero_time; nsecs = 1000000000 };
  ack = no_acks;
  m = none;
  ctl = record {
    pps = pps_new zero_time 10 100000000;
    avgpps = runavg_new 5 1;
    avgdrops = runavg_new 5 1;
  };
}

-- The frame 5 with one IPv4 packet of 20 bytes.
abbrev frame_5 : List ℕ
frame_5 = 0 ∷ 0 ∷ 0 ∷ 5 ∷ 0 ∷ 0 ∷ 0 ∷ 0 ∷ 69 ∷ 0 ∷ 0 ∷ 20 ∷ replicate 16 7

abbrev finished : Outcome (Option (List ℕ) × Receiver) → List Iovec × ℕ × ℕ
finished (ok (_, r)) = ((r.egress.miovs 2).iov, r.egress.outq.depth, r.ack.last)
finished (stop e) = ([], 0, 0)

-- The packet comes out as one piece behind the header of the frame.
whole_packet :
    finished (receive_round false zero_time zero_time receiver (some frame_5))
    ≡ (record { iov_base = in_mbuf 0 32; iov_len = 20 } ∷ [], 1, 5)
unfolding receive_round receive_datagram accept_frame report_losses st_check clock_delta next_tbuf
    mbuf_reset handle_datagram over_limit dispatch data_frame check_seq take_frame
    add_to_inner_packet add_step inner_packet split_payload start_packet take_piece rest_of_packet
    finish_packet miovq_pop miovq_push miov_addmbuf get16 get32
whole_packet = refl

-- The frame 8 is missing and 7 comes too late.
abbrev later_frames : List ℕ
later_frames = 6 ∷ 9 ∷ 7 ∷ []

losses_lem_example :
    let ack = after_all no_acks (5 ∷ later_frames) in
    (ack.start ≡ 5)
    × (ack.last ≡ highest 5 later_frames)
    × (ack.ndrop + (1 + kept 5 later_frames) ≡ ack.last - ack.start + 1)
losses_lem_example =
    losses_lem 5 later_frames (omega arith) (omega arith)
      (omega arith, (omega arith, (omega arith, tt)))
