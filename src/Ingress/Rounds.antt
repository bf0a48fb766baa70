-- ===== src/Ingress/Rounds.antt =====
-- What one round of the packing loop of write_tfs_pkt (src/iptfs.c) does.
use iptfs.Prelude.{
  ℕ, ◌+◌, ◌-◌, ◌/◌, ◌≤◌, ◌<◌, ◌≡◌, inl, inr, refl, ap, ◌∙◌, sym, List, [], ◌∷◌, ◌++◌, length,
  length-append, count, replicate, append-nil, append_assoc, Option, none, some, ok, arith, lt→ltb,
  ==_refl,
}
use iptfs.Iovec.{Address, padding, in_mbuf, Iovec, iovlen, slice, bytes_at, gather}
use iptfs.Iovec.Laws.{iovlen-append, gather-append}
use iptfs.Mbuf.{Mbuf, store, mbuf_len, mbuf_bytes}
use iptfs.Mqueue.Stack.{stack, ptrs}
use iptfs.Ingress.{
  Config, Frame, done, more, add_iov, add_free, next_mbuf, pad_frame, add_partial, add_full, spaces,
}
use iptfs.Packing.Glue.{Packs-idle}
use iptfs.Ingress.Stream.{
  stream, packets, stream-store, spaces-advance, length-slice, mbuf_bytes-advance,
}
use iptfs.Ingress.Dense.{IsDense, Drained, no_packet, IsPacked-part}
use iptfs.Ingress.Filled.{next_mbuf_lem, waited, CanFill, Filled}

module _ (c : Config) (header : List ℕ) where
  add_iov_lem :
      (f : Frame) (base : Address) (len : ℕ)
      → length f.iovs < c.max_inner_pkt
      → let v : Iovec = record { iov_base = base; iov_len = len } in
        (add_iov c f base len ≡ ok (record f { iovs = f.iovs ++ v ∷ [] }))
        × (iovlen (f.iovs ++ v ∷ []) ≡ iovlen f.iovs + len)
        × (length (f.iovs ++ v ∷ []) ≡ length f.iovs + 1)
        × (gather (spaces f.mbufs) header (f.iovs ++ v ∷ [])
            ≡ gather (spaces f.mbufs) header f.iovs ++ bytes_at (spaces f.mbufs) header base len)
  unfolding add_iov iovlen
  add_iov_lem f base len h = (
    rw (lt→ltb _ _ h),
    omega (arith, iovlen-append f.iovs (record { iov_base = base; iov_len = len } ∷ [])),
    length-append f.iovs (record { iov_base = base; iov_len = len } ∷ []),
    gather-append header (spaces f.mbufs) f.iovs (record { iov_base = base; iov_len = len } ∷ [])
        ∙ ap (λ l. gather (spaces f.mbufs) header f.iovs ++ l) (unfold gather in append-nil _),
  )

  -- Nothing more to send: the rest of the frame is padding.
  pub pad_frame_lem :
      {f : Frame} {mtu : ℕ}
      → CanFill c f mtu none
      → (f' : Frame) × (pad_frame c f mtu ≡ ok (done f')) × Filled c header f mtu none f'
  unfolding pad_frame
  pad_frame_lem {f} {mtu} h =
      let (added, len, size, frame) = add_iov_lem f padding mtu (omega (arith, h.room)) in
      (
        record f { iovs = f.iovs ++ record { iov_base = padding; iov_len = mtu } ∷ [] },
        rw added,
        record {
          sent = [];
          zeros = mtu;
          size = omega arith;
          whole = inr h.no_leftover;
          len = len;
          frame = frame;
          conserved = rw h.no_leftover;
          dense = λ _ drained. record {
            packed = record {
              payload = replicate mtu 0;
              whole = [];
              part = [];
              rest = packets f.mbufs (stack f.inq);
            };
            packs =
                Packs-idle mtu (packets f.mbufs (stack f.inq)) (no_packet f.mbufs (drained refl));
            same_payload = refl;
            rest = rw h.no_leftover;
            offset = rw h.no_leftover;
          };
          own = λ q. rw h.no_leftover;
          own_len = rw h.no_leftover;
          refcnts = λ q. refl;
          long = h.long;
          same_spaces = refl;
          sound = h.sound;
          valid = h.valid;
          freeq = refl;
          frees = omega (arith, size, h.frees);
          room = omega (arith, size, h.room);
        },
      )

  -- The packet does not fit: its first `mtu` bytes go into the frame, the rest is left over.
  pub add_partial_lem :
      {f : Frame} {mtu p : ℕ}
      → CanFill c f mtu (some p)
      → mtu < mbuf_len (f.mbufs p)
      → (f' : Frame) × (add_partial c f mtu p ≡ ok (done f')) × Filled c header f mtu (some p) f'
  unfolding add_partial
  add_partial_lem {f} {mtu} {p} h more_left =
      let v = f.mbufs p in
      let v' : Mbuf = record v { start = v.start + mtu } in
      let (added, len, size, frame) =
        add_iov_lem f (in_mbuf p v.start) mtu (omega (arith, h.room)) in
      let alone : count p (stack f.inq) ≡ 0 = ground (arith, h.distinct p) in
      let kept = stream-store f.mbufs p v' (stack f.inq) alone in
      (
        record f {
          st = record f.st { mbufs = store f.mbufs p v'; leftover = some p };
          iovs = f.iovs ++ record { iov_base = in_mbuf p v.start; iov_len = mtu } ∷ [];
        },
        rw added,
        record {
          sent = slice v.start mtu v.space;
          zeros = 0;
          size = omega (arith, length-slice v mtu (h.sound.at p).1 (omega arith));
          whole = inl refl;
          len = len;
          frame = rw (spaces-advance f.mbufs p (v.start + mtu)) (
              frame
              ∙ ap (λ l. gather (spaces f.mbufs) header f.iovs ++ l)
                  (sym (append-nil (slice v.start mtu v.space))));
          conserved =
              rw (==_refl p, kept, mbuf_bytes-advance v mtu (omega arith))
                (append_assoc (slice v.start mtu v.space) (mbuf_bytes v')
                  (stream f.mbufs (stack f.inq)));
          dense = λ _ _.
              IsPacked-part f more_left (elim h.fits [ inl e ↦ cc | inr e ↦ e ]) (h.sound.at p).1
                alone;
          own = λ q. refl;
          own_len = refl;
          refcnts = λ q. ground arith;
          long = λ q k. ground (arith, h.long q, alone);
          same_spaces = spaces-advance f.mbufs p (v.start + mtu);
          sound = record { at = λ q. ground (arith, h.sound.at q, h.sound.at p) };
          valid = h.valid;
          freeq = refl;
          frees = omega (arith, size, h.frees);
          room = omega (arith, size, h.room);
        },
      )

  -- The packet fits: what the next round starts from.
  pub add_full_lem :
      {f : Frame} {mtu p : ℕ}
      → CanFill c f mtu (some p)
      → mbuf_len (f.mbufs p) ≤ mtu
      → (f' : Frame) × (m' : Option ℕ) × (add_full c f mtu p
          ≡ ok (more f' (mtu - mbuf_len (f.mbufs p)) m'))
        × CanFill c f' (mtu - mbuf_len (f.mbufs p)) m'
        × (IsDense c → Drained f'.inq (mtu - mbuf_len (f.mbufs p)) m')
        × (ptrs m' ++ stack f'.inq ≡ stack f.inq)
        × (f'.mbufs ≡ f.mbufs)
        × (f'.freeq ≡ f.freeq)
        × (f'.freem ≡ f.freem ++ p ∷ [])
        × (iovlen f'.iovs ≡ iovlen f.iovs + mbuf_len (f.mbufs p))
        × (gather (spaces f.mbufs) header f'.iovs
            ≡ gather (spaces f.mbufs) header f.iovs ++ mbuf_bytes (f.mbufs p))
  unfolding add_full add_free
  add_full_lem {f} {mtu} {p} h fits =
      let mlen : ℕ = mbuf_len (f.mbufs p) in
      let v : Iovec = record { iov_base = in_mbuf p (f.mbufs p).start; iov_len = mlen } in
      let (added, len, size, frame) =
        add_iov_lem f (in_mbuf p (f.mbufs p).start) mlen (omega (arith, h.room)) in
      let m' = (next_mbuf c f.st (mtu - mlen)).0 in
      let inq' = (next_mbuf c f.st (mtu - mlen)).1 in
      let shrinks : length f.iovs + 1 + (mtu - mlen) / 20 + 2 ≤ c.max_inner_pkt = elim h.room [
        | inl a ↦ omega arith
        | inr (a, l) ↦ omega (arith, l p refl, fits)
      ] in
      let (same, valid, fits', drained) = next_mbuf_lem c f.st (mtu - mlen) h.valid in
      (
        record f {
          st = record f.st { inq = inq' };
          iovs = f.iovs ++ v ∷ [];
          freem = f.freem ++ p ∷ [];
        },
        m',
        rw (added, lt→ltb (length f.freem) c.max_inner_pkt (omega (arith, h.room, h.frees))),
        record {
          distinct = λ q. rw same (ground (arith, h.distinct q));
          sound = h.sound;
          valid = valid;
          no_leftover = h.no_leftover;
          frees = omega (arith, length-append f.freem (p ∷ []), size, h.frees);
          long = λ q k. h.long q (waited m' (stack inq') q same (inr k));
          fits = fits';
          room = inr (
            omega (arith, size, shrinks),
            λ q e. h.long q (waited m' (stack inq') q same (inl e)),
          );
        },
        drained,
        same,
        refl,
        refl,
        refl,
        len,
        frame,
      )
