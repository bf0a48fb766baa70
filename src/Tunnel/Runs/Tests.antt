-- ===== src/Tunnel/Runs/Tests.antt =====
-- Two packets through the tunnel.
use iptfs.Prelude.{
  subst, sym, count, ◌≤◌, u32, Bool-cases, ==→eq, ◌<◌, ◌⊎◌, inl, inr, ℕ, ◌≡◌, refl, false, true,
  List, [], ◌∷◌, ◌++◌, Option, none, some, ◌==◌, if◌then◌else◌, replicate, arith, Outcome, ok, stop,
  Returns,
}
use iptfs.Mbuf.{Memory}
use iptfs.Mqueue.{mqueue_new, mqueue_trypop, mqueue_push}
use iptfs.Ingress.{Config, Ingress, frame_header, fill_round, write_tfs_pkt}
use iptfs.Ingress.State.{Fits, IsValid}
use iptfs.Miov.{miovq_pop, miovq_push, miov_reset}
use iptfs.Miov.Deref.{CanDeref}
use iptfs.Egress.Output.{write_intf_pkt, HasSpace}
use iptfs.Tunnel.Runs.{Run, start, write, Arrives, AllOf, written_packets}
use iptfs.Iovec.{gather}
use iptfs.Bytes.{get16}
use iptfs.Egress.Pieces.{pile}
use iptfs.Egress.{
  Egress, add_step, inner_packet, split_payload, start_packet, rest_of_packet, add_to_inner_packet,
}
use iptfs.Egress.Tests.{packet, packet-IsIpv4, receiver, frame, receiver-IsReady, receiver-HasRoom}
use iptfs.Tunnel.Passage.{InStep, Passes, frame-Passes}

abbrev config : Config
config = record { tfsmtu = 40; max_inner_pkt = 460; dontfrag = false; oneonly = false }

abbrev two_packets : Memory
two_packets p = record {
  space = replicate 4 9 ++ packet (if p == 0 then 1 else 2) ++ replicate 8 9;
  espace = 32;
  start = 4;
  end = 24;
  left = 0;
  refcnt = 0;
}

abbrev sender : Ingress
sender = record {
  mbufs = two_packets;
  inq = record (mqueue_new 4) { queue = 1 ∷ 0 ∷ 0 ∷ 0 ∷ []; depth = 2 };
  freeq = record (mqueue_new 4) { hdrspace = 4 };
  leftover = none;
}

fits : Fits config
fits = record { mtu_min = omega arith; mtu_max = omega arith; arrays = omega arith }

sender-IsValid : IsValid sender
unfolding mqueue_new
sender-IsValid = record {
  distinct = λ q. ground arith;
  sound = record { at = λ p. (omega arith, omega arith) };
  spacious = λ p. omega arith;
  unused = λ p. refl;
  inq_valid = record { storage = refl; depth_in = omega arith };
  freeq_valid = record { storage = refl; depth_in = omega arith };
  capacity = omega arith;
  long = λ q k. omega arith;
}

sender-InStep : InStep sender []
sender-InStep = record {
  offset = refl;
  begun = λ ne. absurd (ne refl);
  ipv4 = (packet-IsIpv4 1, (packet-IsIpv4 2, tt));
}

abbrev state_of : Outcome (ℕ × Option (List ℕ) × Ingress) → Ingress
state_of (ok (_, _, st)) = st
state_of (stop e) = sender

abbrev sent : Ingress
sent = state_of (write_tfs_pkt config (λ d. some 40) sender 258)

frame_sent : write_tfs_pkt config (λ d. some 40) sender 258 ≡ ok (259, some frame, sent)
unfolding write_tfs_pkt frame_header fill_round mqueue_new mqueue_trypop mqueue_push
frame_sent = refl

frame-Passes_example :
    Returns
      (λ (m', rx'). Passes sender [] (receiver frame) 5 none sent m' rx')
      (add_to_inner_packet 41 (receiver frame) 5 true none)
frame-Passes_example =
    frame-Passes fits (refl, refl) (λ d. refl) 258 sender-IsValid sender-InStep none 40 frame_sent
      (omega arith) (omega arith) refl receiver-IsReady (receiver-HasRoom 2 (omega arith))
      (omega arith)

abbrev rx_of : Outcome (Option ℕ × Egress) → Egress
rx_of (ok (_, rx)) = rx
rx_of (stop e) = receiver frame

abbrev received : Egress
received = rx_of (add_to_inner_packet 41 (receiver frame) 5 true none)

frame_received : add_to_inner_packet 41 (receiver frame) 5 true none ≡ ok (some 2, received)
unfolding add_to_inner_packet add_step inner_packet split_payload start_packet rest_of_packet get16
    miovq_pop miovq_push
frame_received = refl

one_finished : pile received.outq ≡ 3 ∷ []
unfolding add_to_inner_packet add_step inner_packet split_payload start_packet rest_of_packet get16
    miovq_pop miovq_push
one_finished = refl

received-HasSpace : HasSpace received.iovfreeq
unfolding add_to_inner_packet add_step inner_packet split_payload start_packet rest_of_packet get16
    miovq_pop miovq_push mqueue_new
received-HasSpace = record { resets = refl; storage = refl; room = omega arith }

some_iov : 0 < (received.miovs 3).maxiov
unfolding add_to_inner_packet add_step inner_packet split_payload start_packet rest_of_packet get16
    miovq_pop miovq_push mqueue_new
some_iov = omega arith

two_references : (received.mbufs 5).refcnt ≡ 2
unfolding add_to_inner_packet add_step inner_packet split_payload start_packet rest_of_packet get16
    miovq_pop miovq_push mqueue_new
two_references = refl

one_buffer : (received.miovs 3).mbufs ≡ 5 ∷ []
unfolding add_to_inner_packet add_step inner_packet split_payload start_packet rest_of_packet get16
    miovq_pop miovq_push mqueue_new
one_buffer = refl

referred : (f : ℕ → ℕ) → f 5 ≡ 2 → (q : ℕ) → count q (5 ∷ []) ≤ f q
referred f two q = elim (Bool-cases (q == 5)) [
  | inl e ↦ subst (λ j. count j (5 ∷ []) ≤ f j) (sym (==→eq q 5 e)) (omega (arith, two))
  | inr e ↦ ground (arith, e)
]

few : (f : ℕ → ℕ) → f 5 ≡ 2 → (q : ℕ) → 0 < count q (5 ∷ []) → f q < u32
few f two q k = elim (Bool-cases (q == 5)) [
  | inl e ↦ subst (λ j. f j < u32) (sym (==→eq q 5 e)) (omega (arith, two))
  | inr e ↦ absurd (ground (arith, e, k))
]

abbrev refcnts : ℕ → ℕ
refcnts q = (received.mbufs q).refcnt

received-CanDeref : CanDeref received.pool (received.miovs 3).mbufs
unfolding add_to_inner_packet add_step inner_packet split_payload start_packet rest_of_packet get16
    miovq_pop miovq_push mqueue_new
received-CanDeref = record {
  valid = record { storage = refl; depth_in = omega arith };
  room = omega arith;
  referred =
      λ q. subst (λ l. count q l ≤ refcnts q) (sym one_buffer) (referred refcnts two_references q);
  small = λ q k. few refcnts two_references q (subst (λ l. 0 < count q l) one_buffer k);
}

abbrev after_write : Outcome (List ℕ × Egress) → Egress
after_write (ok (_, rx)) = rx
after_write (stop e) = received

packet_written : write_intf_pkt received ≡ ok (packet 1, after_write (write_intf_pkt received))
unfolding add_to_inner_packet add_step inner_packet split_payload start_packet rest_of_packet get16
    miovq_pop miovq_push mqueue_new write_intf_pkt miov_reset mqueue_push gather
packet_written = refl

frame-Arrives : Arrives (receiver frame) none 5 frame 2 (receiver frame)
frame-Arrives = record {
  bytes = refl;
  miovs = refl;
  iovfreeq = refl;
  outq = refl;
  contents = λ q k. refl;
  pieces = λ p e. cc;
  room = receiver-HasRoom 2 (omega arith);
  supply = omega arith;
}

abbrev IsOne : List ℕ → Type 0
IsOne b = (b ≡ packet 1) ⊎ (b ≡ packet 2)

-- One frame, and the packet that ends in it is written.
one_frame :
    Run config
      (λ d. some 40)
      sender
      (receiver frame)
      sent
      259
      (after_write (write_intf_pkt received))
      (some 2)
      (packet 1 ∷ [])
one_frame =
    write
      (Run.frame 40 (start 258) frame_sent frame-Arrives (omega arith) (omega arith) frame_received)
      one_finished received-HasSpace some_iov received-CanDeref packet_written

written_packets_example : AllOf IsOne (packet 1 ∷ [])
written_packets_example =
    written_packets IsOne fits (refl, refl) (λ d. refl) sender-IsValid sender-InStep
      receiver-IsReady.valid refl (inl refl, (inr refl, tt)) one_frame
