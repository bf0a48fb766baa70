-- ===== src/Egress/Tests.antt =====
-- A frame with a packet and the start of another for add_to_inner_packet of src/iptfs.c.
use iptfs.Prelude.{
  count, ltb, ◌==◌, if◌then◌else◌, Bool-cases, inl, inr, ℕ, ◌+◌, ◌<◌, ◌≡◌, refl, false, true, List,
  [], ◌∷◌, ◌++◌, none, replicate, arith, Returns,
}
use iptfs.Mbuf.{Memory, mbuf_len}
use iptfs.Mqueue.Stack.{stack}
use iptfs.Bytes.{get16}
use iptfs.Iovec.{in_mbuf}
use iptfs.Miov.{Miov, deref_all}
use iptfs.Miov.Deref.{CanDeref, Dereffed, deref_all_lem}
use iptfs.Egress.Pieces.{pile}
use iptfs.Egress.Output.{write_intf_pkt, Written, write_intf_pkt_lem}
use iptfs.Egress.Setup.{outerqsz, new_egress, new_egress_lem}
use iptfs.Mqueue.{mqueue_new}
use iptfs.Packing.{pack, first_len, IsIpv4}
use iptfs.Packing.Glue.{glue, carried}
use iptfs.Ingress.{frame_header, hdrspace}
use iptfs.Egress.{Egress, add_to_inner_packet}
use iptfs.Egress.Carry.{IsValid, HasRoom, Delivered}
use iptfs.Egress.Frame.{IsReady, add_to_inner_packet_lem}

-- An IPv4 packet of 20 bytes.
abbrev pub packet : ℕ → List ℕ
packet b = 69 ∷ 0 ∷ 0 ∷ 20 ∷ replicate 16 b

pub packet-IsIpv4 : (b : ℕ) → IsIpv4 (packet b)
unfolding get16
packet-IsIpv4 b = record { version = refl; header = omega arith; length_field = refl }

abbrev waiting_packets : List (List ℕ)
waiting_packets = packet 1 ∷ packet 2 ∷ []

-- A receiver with four free packets and the frame in each of its buffers.
abbrev pub receiver : List ℕ → Egress
receiver frame = record {
  pool = record {
    mbufs = λ p. record { space = frame; espace = 40; start = 0; end = 40; left = 0; refcnt = 0 };
    freeq = mqueue_new 4;
  };
  miovs = λ p. record { iov = []; mbufs = []; len = 0; left = 0; maxiov = 4 };
  iovfreeq = record { has_freeq = true; queue = 0 ∷ 1 ∷ 2 ∷ 3 ∷ []; size = 4; depth = 4 };
  outq = record { has_freeq = false; queue = replicate 4 0; size = 4; depth = 0 };
}

abbrev pub frame : List ℕ
frame = 0 ∷ 0 ∷ 1 ∷ 2 ∷ 0 ∷ 0 ∷ 0 ∷ 0 ∷ packet 1 ++ 69 ∷ 0 ∷ 0 ∷ 20 ∷ replicate 8 2

pub receiver-IsReady : IsReady (receiver frame) none [] 20
receiver-IsReady = record {
  valid = record {
    outq = record { plain = refl; storage = refl };
    distinct = λ q. ground arith;
    fresh = λ q k. (refl, refl, omega arith);
  };
  holds = refl;
  pieces = λ p e. cc;
}

pub receiver-HasRoom : (n : ℕ) → n < 4 → HasRoom (receiver frame) 5 n
receiver-HasRoom n h = record {
  inside = (omega arith, omega arith);
  small = omega arith;
  room = omega (arith, h);
  supply = omega (arith, h);
}

add_to_inner_packet_lem_example :
    Returns
      (λ (m', st').
        Delivered
          (receiver frame)
          5
          none
          (glue [] (pack 32 waiting_packets).whole)
          (carried [] (pack 32 waiting_packets))
          (first_len (pack 32 waiting_packets).rest)
          m'
          st')
      (add_to_inner_packet 41 (receiver frame) 5 true none)
unfolding frame_header
add_to_inner_packet_lem_example =
    add_to_inner_packet_lem 40 32 [] waiting_packets 258 (omega arith) (omega arith) (omega arith)
      refl (packet-IsIpv4 1, (packet-IsIpv4 2, tt)) (λ ne. absurd (ne refl))
      (receiver-HasRoom 1 (omega arith)) (omega arith) none receiver-IsReady

-- The packet 3 is finished, with one piece in the buffer 5.
abbrev one_packet : Egress
one_packet = record {
  pool = record {
    mbufs = λ p. record { space = frame; espace = 40; start = 8; end = 40; left = 0; refcnt = 2 };
    freeq = mqueue_new 4;
  };
  miovs = λ p.
      if p == 3
      then record {
        iov = record { iov_base = in_mbuf 5 8; iov_len = 20 } ∷ [];
        mbufs = 5 ∷ [];
        len = 20;
        left = 0;
        maxiov = 4;
      }
      else record { iov = []; mbufs = []; len = 0; left = 0; maxiov = 4 };
  iovfreeq = record { has_freeq = true; queue = 0 ∷ 1 ∷ 2 ∷ 3 ∷ []; size = 4; depth = 3 };
  outq = record { has_freeq = false; queue = 3 ∷ replicate 3 0; size = 4; depth = 1 };
}

one_packet-IsValid : IsValid one_packet none
one_packet-IsValid = record {
  outq = record { plain = refl; storage = refl };
  distinct = λ q. ground arith;
  fresh = λ q k. elim (Bool-cases (q == 3)) [
    | inl e ↦ absurd (ground (arith, k, e))
    | inr e ↦ rw e (refl, refl, omega arith)
  ];
}

one_reference : CanDeref one_packet.pool (5 ∷ [])
unfolding mqueue_new
one_reference = record {
  valid = record { storage = refl; depth_in = omega arith };
  room = omega arith;
  referred = λ q. ground arith;
  small = λ q k. omega arith;
}

deref_all_lem_example :
    Returns (Dereffed one_packet.pool (5 ∷ [])) (deref_all one_packet.pool (5 ∷ []))
deref_all_lem_example = deref_all_lem (5 ∷ []) one_packet.pool one_reference

write_intf_pkt_lem_example :
    Returns (λ (bytes, st'). Written one_packet none 3 bytes st') (write_intf_pkt one_packet)
write_intf_pkt_lem_example =
    write_intf_pkt_lem one_packet one_packet-IsValid refl
      (record { resets = refl; storage = refl; room = omega arith }) (omega arith) one_reference

-- Memory that malloc cleared.
abbrev no_bytes : Memory
no_bytes p = record { space = []; espace = 0; start = 0; end = 0; left = 0; refcnt = 0 }

abbrev any_packet : ℕ → Miov
any_packet p = record { iov = []; mbufs = []; len = 7; left = 3; maxiov = 0 }

new_egress_lem_example :
    Returns
      (λ (st, avgpps, avgdrops).
        ((q : ℕ) → count q (pile st.iovfreeq) ≡ (if ltb q outerqsz then 1 else 0))
        × ((p : ℕ) → st.miovs p ≡ record (any_packet p) { maxiov = 8 })
        × (pile st.outq ≡ [])
        × (st.outq.depth + outerqsz ≡ st.outq.size)
        × ((q : ℕ) → count q (stack st.pool.freeq) ≡ (if ltb q outerqsz then 1 else 0))
        × ((p : ℕ)
            → (mbuf_len (st.mbufs p) ≡ 0)
              × ((st.mbufs p).start ≡ hdrspace)
              × ((st.mbufs p).refcnt ≡ (no_bytes p).refcnt))
        × (st.iovfreeq.has_freeq ≡ true)
        × (st.outq.has_freeq ≡ false))
      (new_egress 1500 no_bytes any_packet)
new_egress_lem_example = new_egress_lem 1500 no_bytes any_packet (omega arith)
