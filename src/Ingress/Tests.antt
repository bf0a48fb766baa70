-- ===== src/Ingress/Tests.antt =====
-- Runs of write_tfs_pkt of src/iptfs.c on small inputs.
use iptfs.Prelude.{
  ℕ, ◌≡◌, refl, false, List, [], ◌∷◌, ◌++◌, Option, none, some, ◌==◌, if◌then◌else◌, replicate,
  arith, Outcome, ok, stop, Returns,
}
use iptfs.Mbuf.{Memory}
use iptfs.Mqueue.{mqueue_new, mqueue_trypop, mqueue_push}
use iptfs.Ingress.{Config, Ingress, frame_header, fill_round, write_tfs_pkt, write_empty_tfs_pkt}
use iptfs.Ingress.State.{waiting, Fits, IsValid}
use iptfs.Ingress.Stream.{stream}
use iptfs.Ingress.Drain.{Carries, write_tfs_pkts, write_tfs_pkts-drains}
use iptfs.Ingress.Empty.{write_empty_tfs_pkt_lem}
use iptfs.Ingress.Sent.{Kept, Sent, SentPacked}
use iptfs.Ingress.Write.{write_tfs_pkt_lem, write_tfs_pkt-pack}

abbrev config : Config
config = record { tfsmtu = 40; max_inner_pkt = 460; dontfrag = false; oneonly = false }

-- Two packets of 20 bytes, all 1 and all 2, at the pointers 0 and 1.
abbrev two_packets : Memory
two_packets p = record {
  space = replicate 4 9 ++ replicate 20 (if p == 0 then 1 else 2) ++ replicate 8 9;
  espace = 32;
  start = 4;
  end = 24;
  left = 0;
  refcnt = 0;
}

abbrev loaded : Ingress
loaded = record {
  mbufs = two_packets;
  inq = record (mqueue_new 4) { queue = 1 ∷ 0 ∷ 0 ∷ 0 ∷ []; depth = 2 };
  freeq = record (mqueue_new 4) { hdrspace = 4 };
  leftover = none;
}

abbrev datagram_of : Outcome (ℕ × Option (List ℕ) × Ingress) → Option (List ℕ)
datagram_of (ok (_, d, _)) = d
datagram_of (stop e) = none

-- The whole first packet, then 12 bytes of the second.
first_frame :
    datagram_of (write_tfs_pkt config (λ d. some 40) loaded 258)
    ≡ some (0 ∷ 0 ∷ 1 ∷ 2 ∷ 0 ∷ 0 ∷ 0 ∷ 0 ∷ replicate 20 1 ++ replicate 12 2)
unfolding write_tfs_pkt frame_header fill_round mqueue_new mqueue_trypop mqueue_push
first_frame = refl

-- The rest of the second packet behind the offset 8, then padding.
abbrev second : Outcome (ℕ × Option (List ℕ) × Ingress) → Outcome (ℕ × Option (List ℕ) × Ingress)
second (ok (seq, _, st)) = write_tfs_pkt config (λ d. some 40) st seq
second (stop e) = stop e

second_frame :
    datagram_of (second (write_tfs_pkt config (λ d. some 40) loaded 258))
    ≡ some (0 ∷ 0 ∷ 1 ∷ 3 ∷ 0 ∷ 0 ∷ 0 ∷ 8 ∷ replicate 8 2 ++ replicate 24 0)
unfolding write_tfs_pkt frame_header fill_round mqueue_new mqueue_trypop mqueue_push
second_frame = refl

fits : Fits config
fits = record { mtu_min = omega arith; mtu_max = omega arith; arrays = omega arith }

loaded-IsValid : IsValid loaded
unfolding mqueue_new
loaded-IsValid = record {
  distinct = λ q. ground arith;
  sound = record { at = λ p. (omega arith, omega arith) };
  spacious = λ p. omega arith;
  unused = λ p. refl;
  inq_valid = record { storage = refl; depth_in = omega arith };
  freeq_valid = record { storage = refl; depth_in = omega arith };
  capacity = omega arith;
  long = λ q k. omega arith;
}

write_tfs_pkt_lem_example :
    Returns
      (λ (seq', datagram, st').
        Kept loaded st' × Sent config (λ d. some 40) loaded 258 seq' datagram st')
      (write_tfs_pkt config (λ d. some 40) loaded 258)
write_tfs_pkt_lem_example = write_tfs_pkt_lem config (λ d. some 40) fits 258 loaded-IsValid

write_empty_tfs_pkt_lem_example :
    (write_empty_tfs_pkt 7 1500).1 ≡ frame_header 7 0 ++ replicate 1492 0
write_empty_tfs_pkt_lem_example = write_empty_tfs_pkt_lem 7 1500 (omega arith) (omega arith)

write_tfs_pkt-pack_example :
    Returns
      (λ (seq', datagram, st'). SentPacked config loaded 258 datagram st')
      (write_tfs_pkt config (λ d. some 40) loaded 258)
write_tfs_pkt-pack_example =
    write_tfs_pkt-pack config (λ d. some 40) fits 258 loaded-IsValid (refl, refl) (λ d. refl)

-- The 40 bytes of the two packets are sent in two rounds.
write_tfs_pkts-drains_example :
    Returns
      (λ (datagrams, seq', st').
        Carries config 258 (stream loaded.mbufs (waiting loaded)) datagrams
        × IsValid st'
        × (waiting st' ≡ []))
      (write_tfs_pkts config (λ d. some 40) 2 loaded 258)
write_tfs_pkts-drains_example =
    write_tfs_pkts-drains fits (refl, refl) (λ d. refl) 2 258 loaded-IsValid (omega arith)
