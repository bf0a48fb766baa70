-- ===== src/Ingress/Fill.antt =====
-- The packing loop of write_tfs_pkt (src/iptfs.c) as a whole: what it puts into a frame and what it
-- leaves.
use native.Mathlib.Nat.{le_refl}
use iptfs.Prelude.{
  ℕ, zero, suc, ◌+◌, ◌-◌, ◌≤◌, ◌<◌, ◌≡◌, inl, inr, refl, ap, ◌∙◌, sym, false, Bool-cases, List, [],
  ◌∷◌, ◌++◌, length, length-append, count, count-append, replicate, append-nil, append_assoc,
  Option, none, some, ltb, ◌==◌, if◌then◌else◌, ok, Returns, arith, ltb→lt, ltb→le, Returns-map,
}
use iptfs.Iovec.{iovlen, gather}
use iptfs.Mbuf.{Memory, mbuf_len, mbuf_bytes}
use iptfs.Mqueue.Stack.{stack, ptrs}
use iptfs.Ingress.{Config, Frame, done, more, add_partial, add_full, fill_round, fill_frame, spaces}
use iptfs.Packing.Glue.{Packs-idle}
use iptfs.Ingress.Dense.{IsDense, Drained, IsPacked-fits}
use iptfs.Ingress.Stream.{packets, stream, length-slice}
use iptfs.Ingress.Rounds.{pad_frame_lem, add_partial_lem, add_full_lem}
use iptfs.Ingress.Filled.{CanFill, Filled}

module _ (c : Config) (header : List ℕ) where
  -- What a round and the rest of the loop do together.
  Filled-step :
      {f f' f'' : Frame} {mtu p : ℕ} {m' : Option ℕ}
      → CanFill c f mtu (some p)
      → mbuf_len (f.mbufs p) ≤ mtu
      → (IsDense c → Drained f'.inq (mtu - mbuf_len (f.mbufs p)) m')
      → ptrs m' ++ stack f'.inq ≡ stack f.inq
      → f'.mbufs ≡ f.mbufs
      → f'.freeq ≡ f.freeq
      → f'.freem ≡ f.freem ++ p ∷ []
      → iovlen f'.iovs ≡ iovlen f.iovs + mbuf_len (f.mbufs p)
      → gather (spaces f.mbufs) header f'.iovs
        ≡ gather (spaces f.mbufs) header f.iovs ++ mbuf_bytes (f.mbufs p)
      → Filled c header f' (mtu - mbuf_len (f.mbufs p)) m' f''
      → Filled c header f mtu (some p) f''
  Filled-step {f} {f'} {f''} {mtu} {p} {m'} h fits drained same mem freeq freem len frame r =
      record {
        sent = mbuf_bytes (f.mbufs p) ++ r.sent;
        zeros = r.zeros;
        size = omega (
          arith,
          length-append (mbuf_bytes (f.mbufs p)) r.sent,
          length-slice (f.mbufs p) (mbuf_len (f.mbufs p)) (h.sound.at p).1
              (le_refl (mbuf_len (f.mbufs p))),
          r.size,
          fits,
        );
        whole = r.whole;
        len = omega (arith, len, r.len, fits);
        frame =
            r.frame
            ∙ ap (λ g. g ++ (r.sent ++ replicate r.zeros 0))
                (ap (λ (mem' : Memory). gather (spaces mem') header f'.iovs) mem ∙ frame)
            ∙ simp append_assoc;
        conserved =
            ap (λ l. mbuf_bytes (f.mbufs p) ++ l)
              (ap (stream f.mbufs) (sym same)
                ∙ ap (λ (mem' : Memory). stream mem' (ptrs m' ++ stack f'.inq)) (sym mem)
                ∙ r.conserved)
            ∙ sym (
                append_assoc (mbuf_bytes (f.mbufs p)) r.sent
                  (stream f''.mbufs (ptrs f''.leftover ++ stack f''.inq)));
        dense = λ d _.
            IsPacked-fits (mbuf_bytes (f.mbufs p)) (elim h.fits [ inl e ↦ cc | inr e ↦ e ])
              (omega (arith, full, fits)) (omega (arith, full))
              (ap (λ (mem' : Memory). packets mem' (ptrs m' ++ stack f'.inq)) mem
                ∙ ap (packets f.mbufs) same)
              (append_assoc (mbuf_bytes (f.mbufs p)) r.sent (replicate r.zeros 0))
              (r.dense d (drained d));
        own = λ q. ground (
          arith,
          r.own q,
          ap (count q) same,
          ap (count q) freem,
          count-append q f.freem (p ∷ []),
        );
        own_len =
            omega
              (arith, r.own_len, ap length same, ap length freem, length-append f.freem (p ∷ []));
        refcnts = λ q. r.refcnts q ∙ ap (λ (mem' : Memory). (mem' q).refcnt) mem;
        long = r.long;
        same_spaces = r.same_spaces ∙ ap spaces mem;
        sound = r.sound;
        valid = r.valid;
        freeq = r.freeq ∙ freeq;
        frees = r.frees;
        room = r.room;
      }
    where
      full : length (mbuf_bytes (f.mbufs p)) ≡ mbuf_len (f.mbufs p)
      full =
          length-slice (f.mbufs p) (mbuf_len (f.mbufs p)) (h.sound.at p).1
            (le_refl (mbuf_len (f.mbufs p)))

  idle : {f : Frame} → CanFill c f 0 none → Filled c header f 0 none f
  idle {f} h = record {
    sent = [];
    zeros = 0;
    size = refl;
    whole = inl refl;
    len = omega arith;
    frame = sym (append-nil _);
    conserved = rw h.no_leftover;
    dense = λ _ drained. record {
      packed = record { payload = []; whole = []; part = []; rest = packets f.mbufs (stack f.inq) };
      packs = Packs-idle 0 (packets f.mbufs (stack f.inq)) (inl (omega arith));
      same_payload = refl;
      rest = rw h.no_leftover;
      offset = rw h.no_leftover;
    };
    own = λ q. rw h.no_leftover;
    own_len = rw h.no_leftover;
    refcnts = λ q. refl;
    long = h.long;
    same_spaces = refl;
    sound = h.sound;
    valid = h.valid;
    freeq = refl;
    frees = h.frees;
    room = omega (arith, h.room);
  }

  fill_round-some :
      {f : Frame} {mtu p : ℕ}
      → CanFill c f mtu (some p)
      → fill_round c f mtu (some p)
        ≡ (if ltb mtu (mbuf_len (f.mbufs p)) then add_partial c f mtu p else add_full c f mtu p)
  unfolding fill_round
  fill_round-some h = ground (arith, h.fits)

  -- One step of the loop, for each way that a round ends.
  module _ (k : ℕ) (f : Frame) (mtu : ℕ) (m : Option ℕ) (busy : (mtu == 0) ≡ false) where
    fill_frame_done :
        (f' : Frame) → fill_round c f mtu m ≡ ok (done f') → fill_frame c (suc k) f mtu m ≡ ok f'
    unfolding fill_frame
    fill_frame_done f' e = rw (fill_frame, busy, e)

    fill_frame_more :
        (f' : Frame) (mtu' : ℕ) (m' : Option ℕ)
        → fill_round c f mtu m ≡ ok (more f' mtu' m')
        → fill_frame c (suc k) f mtu m ≡ fill_frame c k f' mtu' m'
    unfolding fill_frame
    fill_frame_more f' mtu' m' e = rw (fill_frame, busy, e)

  -- The loop returns, whatever the fuel beyond one round for each mbuf and one more.
  pub fill_frame_lem :
      (k : ℕ) (f : Frame) (mtu : ℕ) (m : Option ℕ)
      → CanFill c f mtu m
      → length (ptrs m ++ stack f.inq) < k
      → Returns (Filled c header f mtu m) (fill_frame c k f mtu m)
  fill_frame_lem zero f mtu m h fuel = absurd (omega arith)
  fill_frame_lem (suc k) f zero none h fuel = unfold fill_frame in idle h
  fill_frame_lem (suc k) f (suc n) none h fuel =
      let (f', padded, r) = pad_frame_lem c header h in
      rw (fill_frame_done k f (suc n) none (ground arith) f' (unfold fill_round in padded)) r
  fill_frame_lem (suc k) f mtu (some p) h fuel =
      elim (Bool-cases (ltb mtu (mbuf_len (f.mbufs p)))) [
        | inl e ↦
            (let (f', added, r) = add_partial_lem c header h (ltb→lt _ _ e) in
              rw (fill_frame_done k f mtu (some p) busy f' (fill_round-some h ∙ rw e added)) r)
        | inr e ↦
            (let fits = ltb→le mtu (mbuf_len (f.mbufs p)) e in
              let (f', m', added, h', drained, same, mem, freeq, freem, len, frame) =
                add_full_lem c header h fits in
              rw
                (fill_frame_more k f mtu (some p) busy f' (mtu - mbuf_len (f.mbufs p)) m'
                  (fill_round-some h ∙ rw e added))
                (Returns-map (fill_frame c k f' (mtu - mbuf_len (f.mbufs p)) m')
                  (λ f''. Filled-step h fits drained same mem freeq freem len frame)
                  (fill_frame_lem k f' (mtu - mbuf_len (f.mbufs p)) m' h'
                    (omega (arith, ap length same)))))
      ]
    where
      busy : (mtu == 0) ≡ false
      busy = ground (arith, h.fits)
