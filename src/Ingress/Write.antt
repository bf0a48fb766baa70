-- ===== src/Ingress/Write.antt =====
-- write_tfs_pkt of src/iptfs.c as a whole: every frame has the size of the tunnel's MTU, and the
-- bytes of the packets go out once, in order.
use iptfs.Prelude.{
  Returns-map, map-ext_on, ℕ, ◌+◌, ◌-◌, ◌≡◌, inl, inr, refl, ap, ◌∙◌, sym, Bool-cases, List, [],
  ◌∷◌, ◌++◌, take, replicate, Option, none, some, Returns, arith, ==_refl, Returns-value, subst,
  take_all, append-nil,
}
use iptfs.Iovec.{hdr, iovlen, gather}
use iptfs.Mbuf.{Memory, mbuf_bytes}
use iptfs.Mqueue.Stack.{stack, length-stack}
use iptfs.Ingress.{
  Config, Ingress, Frame, fill_frame, free_all, frame_header, write_empty_tfs_pkt, first_mbuf,
  is_short, send_frame, new_frame, write_first, write_tfs_pkt, spaces,
}
use iptfs.Ingress.Stream.{stream, packets, offset_of, stream-ext}
use iptfs.Ingress.Filled.{Filled}
use iptfs.Ingress.Fill.{fill_frame_lem}
use iptfs.Ingress.Release.{Freed, free_all_lem}
use iptfs.Ingress.State.{waiting, Fits, IsValid, Taken, first_mbuf_lem}
use iptfs.Packing.{none_left}
use iptfs.Ingress.Dense.{IsDense}
use iptfs.Ingress.Empty.{length-frame_header, write_empty_tfs_pkt_lem, seq-write_empty_tfs_pkt}
use iptfs.Ingress.Sent.{Sent, SentPacked, SentPacked-frame, offset_kept, Kept}
use iptfs.Ingress.Kept.{
  is_short-full, after_send_lem, CanFill-first, Kept-empty, CanFree-sent, same_waiting, untouched,
  Kept-freed,
}

module _ (c : Config) (sendmsg : List ℕ → Option ℕ) (fits : Fits c) (seq : ℕ) {st : Ingress}
    (v : IsValid st) where
  abbrev Good : ℕ × Option (List ℕ) × Ingress → Type 0
  Good (seq', datagram, st') =
      Kept st st'
      × Sent c sendmsg st seq seq' datagram st'
      × (IsDense c → ((d : List ℕ) → sendmsg d ≡ some c.tfsmtu) → SentPacked c st seq datagram st')

  empty_lem :
      {offset : ℕ} {st1 : Ingress}
      → Taken st none offset st1
      → Returns Good (write_first c sendmsg seq offset st1 none)
  unfolding write_first
  empty_lem {offset} {st1} t = elim (Bool-cases c.oneonly) [
    | inl e ↦ simp e (Kept-empty c sendmsg v t, Sent.nothing e (t.empty refl), λ dense _. cc)
    | inr e ↦ simp e (
      Kept-empty c sendmsg v t,
      Sent.frame [] (c.tfsmtu - 8) (seq-write_empty_tfs_pkt seq c.tfsmtu) empty_datagram
          (omega (arith, fits.mtu_min)) (λ x. rw (t.no_leftover, t.mbufs, t.same) refl),
      λ _ _.
          SentPacked-frame c {f = new_frame c sendmsg st1} {payload = replicate (c.tfsmtu - 8) 0}
            (record {
              packed = record {
                payload = replicate (c.tfsmtu - 8) 0;
                whole = [];
                part = [];
                rest = [];
              };
              packs = none_left (c.tfsmtu - 8);
              same_payload = refl;
              rest = ap (packets st1.mbufs) still_empty;
              offset = rw t.no_leftover;
            })
            (ap (packets st.mbufs) (sym (t.empty refl))) empty_datagram refl refl,
    )
  ]
    where
      still_empty : waiting st1 ≡ []
      still_empty = rw t.no_leftover (t.same ∙ t.empty refl)

      at_zero : offset_of st ≡ 0
      at_zero = ground (arith, t.empty refl)

      empty_datagram :
          (write_empty_tfs_pkt seq c.tfsmtu).1
          ≡ frame_header seq (offset_of st) ++ ([] ++ replicate (c.tfsmtu - 8) 0)
      empty_datagram =
          rw at_zero
            (write_empty_tfs_pkt_lem seq c.tfsmtu (omega (arith, fits.mtu_min)) fits.mtu_max)

  module _ {p offset : ℕ} {st1 : Ingress} {f : Frame} (t : Taken st (some p) offset st1)
      (r : Filled c
        (frame_header seq offset)
        (new_frame c sendmsg st1)
        (c.tfsmtu - 8)
        (some p)
        f) where
    full_length : iovlen f.iovs ≡ c.tfsmtu
    full_length = ap (λ n. n) r.len ∙ (unfold iovlen in omega (arith, fits.mtu_min))

    datagram_lem :
        gather (spaces f.mbufs) (frame_header seq offset) f.iovs
        ≡ frame_header seq (offset_of st) ++ (r.sent ++ replicate r.zeros 0)
    datagram_lem =
        r.frame
        ∙ ap (λ h. h ++ (r.sent ++ replicate r.zeros 0)) whole_header
        ∙ ap (λ k. frame_header seq k ++ (r.sent ++ replicate r.zeros 0)) t.at
      where
        whole_header :
            gather
              (spaces st1.mbufs)
              (frame_header seq offset)
              (record { iov_base = hdr; iov_len = 8 } ∷ [])
            ≡ frame_header seq offset
        whole_header =
            unfold gather in
            append-nil (take 8 (frame_header seq offset))
            ∙ take_all (frame_header seq offset) 8 (omega (arith, length-frame_header seq offset))

    conserved_lem :
        {st' : Ingress}
        → Freed f.st f.freem st'
        → stream st.mbufs (waiting st) ≡ r.sent ++ stream st'.mbufs (waiting st')
    conserved_lem {st'} d =
        ap (stream st.mbufs) (sym t.same)
        ∙ ap (λ (m : Memory). stream m (p ∷ stack st1.inq)) (sym t.mbufs)
        ∙ r.conserved
        ∙ ap (λ l. r.sent ++ l)
            (sym (
              ap (stream st'.mbufs)
                (same_waiting c sendmsg v f t r refl refl refl refl (λ q. refl) d)
              ∙ stream-ext f.mbufs st'.mbufs (waiting f.st)
                  (untouched c sendmsg v f t r refl refl refl refl (λ q. refl) d)))

    packed_lem :
        {st' : Ingress}
        → IsDense c
        → Freed f.st f.freem st'
        → SentPacked c st seq (some (gather (spaces f.mbufs) (frame_header seq offset) f.iovs)) st'
    packed_lem {st'} dense d =
        SentPacked-frame c (r.dense dense (λ e. cc))
          (ap (packets st1.mbufs) t.same ∙ ap (λ (m : Memory). packets m (waiting st)) t.mbufs)
          datagram_lem
          (ap (packets st'.mbufs) (same_waiting c sendmsg v f t r refl refl refl refl (λ q. refl) d)
            ∙ map-ext_on _ _ (waiting f.st) (λ q k.
              ap mbuf_bytes (untouched c sendmsg v f t r refl refl refl refl (λ q. refl) d q k)))
          (offset_kept f.st st' d.leftover
            (untouched c sendmsg v f t r refl refl refl refl (λ q. refl) d))

    send_frame_lem : Returns Good (send_frame c sendmsg seq (frame_header seq offset) f)
    unfolding send_frame
    send_frame_lem =
        let datagram = gather (spaces f.mbufs) (frame_header seq offset) f.iovs in
        let (f', kept, mem, inq, freeq, own, len, same) =
          after_send_lem c sendmsg {f = f} (omega (arith, r.frees, r.room))
            (is_short c (sendmsg datagram)) in
        let (st', freed, d) =
          Returns-value (free_all f'.st f'.freem)
            (free_all_lem f'.freem f'.st (CanFree-sent c sendmsg v f' t r mem inq freeq len own)) in
        rw (full_length, ==_refl, kept, freed)
          (
            Kept-freed c sendmsg v f' t r mem inq freeq len own d,
            Sent.frame r.sent r.zeros refl datagram_lem (omega (arith, r.size, fits.mtu_min)) (λ x.
                conserved_lem (
                  subst (λ (g : Frame). Freed g.st g.freem st')
                    (same (ap (is_short c) x ∙ is_short-full c sendmsg)) d)),
            λ dense all. packed_lem dense (
                subst (λ (g : Frame). Freed g.st g.freem st')
                  (same (ap (is_short c) (all datagram) ∙ is_short-full c sendmsg)) d),
          )

  frame_lem :
      {p offset : ℕ} {st1 : Ingress}
      → Taken st (some p) offset st1
      → Returns Good (write_first c sendmsg seq offset st1 (some p))
  unfolding write_first
  frame_lem {p} {offset} {st1} t =
      let header = frame_header seq offset in
      let (f, filled, r) =
        Returns-value
          (fill_frame c (st1.inq.depth + 2) (new_frame c sendmsg st1) (c.tfsmtu - 8) (some p))
          (fill_frame_lem c header (st1.inq.depth + 2) (new_frame c sendmsg st1) (c.tfsmtu - 8)
            (some p) (CanFill-first c sendmsg v fits t) (omega (arith, length-stack st1.inq))) in
      rw filled (send_frame_lem t r)

  write_first_lem :
      (m : Option ℕ) {offset : ℕ} {st1 : Ingress}
      → Taken st m offset st1
      → Returns Good (write_first c sendmsg seq offset st1 m)
  write_first_lem none t = empty_lem t
  write_first_lem (some p) t = frame_lem t

  call_lem : Returns Good (write_tfs_pkt c sendmsg st seq)
  unfolding write_tfs_pkt
  call_lem = write_first_lem (first_mbuf st).0 (first_mbuf_lem st v.inq_valid)

  -- For a tunnel MTU that fits the arrays, a valid state of the sending thread (each mbuf in one place,
  -- waiting packets of at least 20 bytes) and any behaviour of sendmsg, write_tfs_pkt returns: it never
  -- exits, blocks, overruns its arrays or runs out of fuel. The state stays valid with the same mbufs.
  -- Unless nothing waits in the one-packet mode, it sends one datagram of exactly MTU bytes: the header
  -- with the sequence number and the offset, bytes of packets, and zeros; the sequence number goes up
  -- by one; and if all of the datagram was sent, the stream of waiting bytes has lost just the bytes of
  -- packets in it, in order.
  pub write_tfs_pkt_lem :
      Returns
        (λ (seq', datagram, st'). Kept st st' × Sent c sendmsg st seq seq' datagram st')
        (write_tfs_pkt c sendmsg st seq)
  write_tfs_pkt_lem =
      Returns-map (write_tfs_pkt c sendmsg st seq) (λ (seq', datagram, st') g. (g.0, g.1)) call_lem

  -- For a tunnel MTU that fits the arrays, a valid state of the sending thread, frames that may
  -- split packets and hold several (neither g_dontfrag nor g_oneonly) and a sendmsg that sends all
  -- it is given, write_tfs_pkt implements `pack`: it returns after sending the header, with the
  -- sequence number and the offset of the first packet that starts in the frame, and the payload of
  -- MTU - 8 bytes that `pack` makes of the waiting packets. The packets that `pack` leaves wait
  -- afterwards, and the next offset is what is left of the packet that goes on.
  pub write_tfs_pkt-pack :
      IsDense c
      → ((d : List ℕ) → sendmsg d ≡ some c.tfsmtu)
      → Returns
          (λ (seq', datagram, st'). SentPacked c st seq datagram st')
          (write_tfs_pkt c sendmsg st seq)
  write_tfs_pkt-pack dense all =
      Returns-map (write_tfs_pkt c sendmsg st seq) (λ (seq', datagram, st') g. g.2 dense all)
        call_lem
