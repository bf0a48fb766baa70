-- ===== src/Tunnel/Passage.antt =====
-- A frame from write_tfs_pkt to add_to_inner_packet (src/iptfs.c): the packets that go into one end of
-- the tunnel come out of the other.
use iptfs.Prelude.{
  ℕ, suc, ◌-◌, ◌≤◌, ◌<◌, ◌≡◌, ◌≢◌, ap, ◌∙◌, sym, subst, List, [], ◌∷◌, ◌++◌, length, Option, some,
  ok, Returns, Returns-map, u16, arith, true,
}
use iptfs.Mbuf.{mbuf_bytes}
use iptfs.Packing.{pack, pack-Packs, first_len, AllIpv4}
use iptfs.Packing.Glue.{
  glue, carried, ahead, glue_lem, length-whole, ahead-carried, first_len-carried,
}
use iptfs.Ingress.{Config, Ingress, frame_header, write_tfs_pkt}
use iptfs.Ingress.Stream.{offset_of}
use iptfs.Ingress.Dense.{IsDense}
use iptfs.Ingress.State.{unsent, Fits, IsValid}
use iptfs.Ingress.Sent.{SentPacked}
use iptfs.Ingress.Write.{write_tfs_pkt-pack}
use iptfs.Egress.{Egress, add_to_inner_packet}
use iptfs.Egress.Pieces.{pile}
use iptfs.Egress.Carry.{HasRoom, Delivered}
use iptfs.Egress.Frame.{IsReady, add_to_inner_packet_lem}

-- The two ends agree: `acc` has come of the first packet that waits, and with it the packets are IPv4
-- packets.
pub record InStep (st : Ingress) (acc : List ℕ) : Type 0 where
  pub offset : offset_of st ≡ ahead acc (unsent st)
  pub begun : acc ≢ [] → first_len (unsent st) ≢ 0
  pub ipv4 : AllIpv4 (glue acc (unsent st))

-- From `rx` with `m` at hand to `rx'` with `m'` at hand: some packets have come out, in order, and they
-- and those still to come are the packets there were.
pub record Passes (st : Ingress) (acc : List ℕ) (rx : Egress) (t : ℕ) (m : Option ℕ) (st' : Ingress)
    (m' : Option ℕ) (rx' : Egress) : Type 0 where
  pub out : List (List ℕ)
  pub acc' : List ℕ
  pub delivered : Delivered rx t m out acc' (first_len (unsent st')) m' rx'
  pub conserved : glue acc (unsent st) ≡ out ++ glue acc' (unsent st')
  pub in_step : InStep st' acc'

AllIpv4-behind : (xs ys : List (List ℕ)) → AllIpv4 (xs ++ ys) → AllIpv4 ys
AllIpv4-behind [] ys h = h
AllIpv4-behind (x ∷ xs) ys (_, h) = AllIpv4-behind xs ys h

-- The state of the sending thread after the frame.
InStep-sent :
    (c : Config) {st : Ingress} {seq : ℕ} {datagram : Option (List ℕ)} {st' : Ingress}
    {acc : List ℕ}
    → 14 < c.tfsmtu
    → InStep st acc
    → SentPacked c st seq datagram st'
    → let r = pack (c.tfsmtu - 8) (unsent st) in
      (glue acc (unsent st) ≡ glue acc r.whole ++ glue (carried acc r) (unsent st'))
      × InStep st' (carried acc r)
InStep-sent c {st} {st' = st'} {acc = acc} fits h s =
    let packs = pack-Packs (c.tfsmtu - 8) (unsent st) in
    let r = pack (c.tfsmtu - 8) (unsent st) in
    let long : 6 < c.tfsmtu - 8 = omega (arith, fits) in
    let split =
      glue_lem acc packs ∙ ap (λ l. glue acc r.whole ++ glue (carried acc r) l) (sym s.rest) in
    (
      split,
      record {
        offset =
            s.offset ∙ sym (ahead-carried acc long packs) ∙ ap (ahead (carried acc r)) (sym s.rest);
        begun = λ ne e. first_len-carried acc long h.begun packs ne (ap first_len (sym s.rest) ∙ e);
        ipv4 =
            AllIpv4-behind (glue acc r.whole) (glue (carried acc r) (unsent st'))
              (subst AllIpv4 split h.ipv4);
      },
    )

whole_datagram : {d d' : List ℕ} → some d ≡ some d' → d ≡ d'
whole_datagram e = cc

-- A sender and a receiver that agree, and a frame that the sender sends whole.
module _ {c : Config} {sendmsg : List ℕ → Option ℕ} (fits : Fits c) (dense : IsDense c)
    (all : (d : List ℕ) → sendmsg d ≡ some c.tfsmtu) (seq : ℕ) {st : Ingress} (v : IsValid st)
    {acc : List ℕ} (agree : InStep st acc) where
  -- For a tunnel MTU that fits the arrays, frames that may split packets and hold several, a
  -- sendmsg that sends all it is given, and a valid sender with which a receiver agrees (the offset
  -- of the next frame is where the receiver expects it, and the waiting packets, the first with
  -- what has been sent of it, are IPv4 packets): if write_tfs_pkt sends a datagram, then
  -- add_to_inner_packet on a buffer with its bytes, with the packet at hand, if any, holding what
  -- was sent of the first packet and having room for a piece, room on the queues, an offset below 2
  -- ^ 16 and enough fuel, returns. The packets that it finishes and those still to come, the first
  -- with the bytes kept at hand, are the packets there were, in order; and the two ends agree
  -- again.
  pub frame-Passes :
      {seq' : ℕ} {d : List ℕ} {st' : Ingress} {rx : Egress} {t : ℕ} (m : Option ℕ) (k : ℕ)
      → write_tfs_pkt c sendmsg st seq ≡ ok (seq', some d, st')
      → c.tfsmtu ≤ k
      → ahead acc (unsent st) < u16
      → mbuf_bytes (rx.mbufs t) ≡ d
      → IsReady rx m acc (first_len (unsent st))
      → HasRoom rx t (length (unsent st))
      → length (unsent st) < length (pile rx.iovfreeq)
      → Returns
          (λ (m', rx'). Passes st acc rx t m st' m' rx')
          (add_to_inner_packet (suc k) rx t true m)
  frame-Passes {seq'} {d} {st'} {rx} {t} m k sent enough small came ready room supply =
      let s : SentPacked c st seq (some d) st' =
        subst (Returns (λ (seq', datagram, st'). SentPacked c st seq datagram st')) sent
          (write_tfs_pkt-pack c sendmsg fits seq v dense all) in
      let r = pack (c.tfsmtu - 8) (unsent st) in
      let packs = pack-Packs (c.tfsmtu - 8) (unsent st) in
      let (split, step) = InStep-sent c fits.mtu_min agree s in
      let whole : length r.whole ≤ length (unsent st) = length-whole packs in
      let fewer : HasRoom rx t (length r.whole) = record {
        inside = room.inside;
        small = room.small;
        room = omega (arith, room.room, whole);
        supply = omega (arith, supply, whole);
      } in
      let bytes : mbuf_bytes (rx.mbufs t) ≡ frame_header seq (ahead acc (unsent st)) ++ r.payload =
        came ∙ whole_datagram s.frame ∙ ap (λ j. frame_header seq j ++ r.payload) agree.offset in
      Returns-map (add_to_inner_packet (suc k) rx t true m)
        (λ (m', rx') d. record {
          out = glue acc r.whole;
          acc' = carried acc r;
          delivered =
              subst (λ l. Delivered rx t m (glue acc r.whole) (carried acc r) (first_len l) m' rx')
                (sym s.rest) d;
          conserved = split;
          in_step = step;
        })
        (add_to_inner_packet_lem k (c.tfsmtu - 8) acc (unsent st) seq (omega (arith, fits.mtu_min))
          (omega (arith, enough)) small bytes agree.ipv4 agree.begun fewer
          (omega (arith, supply, whole)) m ready)
