-- ===== src/Ingress/Kept.antt =====
-- The state of the sending thread after write_tfs_pkt (src/iptfs.c) has sent a frame and released the
-- mbufs that it used.
use iptfs.Prelude.{
  ℕ, ◌+◌, ◌-◌, ◌≤◌, ◌<◌, ◌≡◌, inl, inr, refl, ap, ◌∙◌, Bool, true, false, not, List, [], ◌∷◌, ◌++◌,
  length, length-append, count, count-append, Option, none, some, Option-cases, if◌then◌else◌, ok,
  arith, ==_refl, lt→ltb, subst,
}
use iptfs.Mbuf.{Memory, mbuf_len}
use iptfs.Mqueue.{Mqueue}
use iptfs.Mqueue.Stack.{stack, ptrs}
use iptfs.Ingress.{Config, Ingress, Frame, add_free, drop_leftover, is_short, new_frame}
use iptfs.Ingress.Filled.{CanFill, Filled}
use iptfs.Ingress.Release.{CanFree, Freed}
use iptfs.Ingress.State.{waiting, Fits, IsValid, Taken}
use iptfs.Ingress.Sent.{Kept}

module _ (c : Config) (sendmsg : List ℕ → Option ℕ) where
  pub is_short-full : is_short c (some c.tfsmtu) ≡ false
  unfolding is_short
  is_short-full = ap not (==_refl c.tfsmtu)

  -- What is left of the frame once it has been sent, or dropped where the send fell short.
  module _ {f : Frame} (h : length f.freem < c.max_inner_pkt) where
    pub after_send_lem :
        (short : Bool)
        → (f' : Frame) × ((if short then drop_leftover c f f.leftover else ok f) ≡ ok f')
          × (f'.mbufs ≡ f.mbufs)
          × (f'.inq ≡ f.inq)
          × (f'.freeq ≡ f.freeq)
          × ((q : ℕ)
              → count q (ptrs f'.leftover) + count q f'.freem
                ≡ count q (ptrs f.leftover) + count q f.freem)
          × (length (ptrs f'.leftover) + length f'.freem
              ≡ length (ptrs f.leftover) + length f.freem)
          × (short ≡ false → f' ≡ f)
    unfolding drop_leftover add_free
    after_send_lem false = (f, refl, refl, refl, refl, λ q. refl, refl, λ e. refl)
    after_send_lem true = elim (Option-cases f.leftover) [
      | inl e ↦ rw (drop_leftover, e) (f, refl, refl, refl, refl, λ q. rw e, rw e, λ x. cc)
      | inr (p, e) ↦
          rw (drop_leftover, e)
            (
              record f { st = record f.st { leftover = none }; freem = f.freem ++ p ∷ [] },
              rw (lt→ltb (length f.freem) c.max_inner_pkt h),
              refl,
              refl,
              refl,
              λ q. ground (arith, count-append q f.freem (p ∷ [])),
              omega (arith, length-append f.freem (p ∷ [])),
              λ x. cc,
            )
    ]

module _ (c : Config) (sendmsg : List ℕ → Option ℕ) {st : Ingress} (v : IsValid st) where
  pub CanFill-first :
      {p offset : ℕ} {st1 : Ingress}
      → Fits c
      → Taken st (some p) offset st1
      → CanFill c (new_frame c sendmsg st1) (c.tfsmtu - 8) (some p)
  CanFill-first {p} {offset} {st1} fits t = record {
    distinct = λ q. rw t.same (omega (arith, v.distinct q));
    sound = rw t.mbufs v.sound;
    valid = t.valid;
    no_leftover = t.no_leftover;
    frees = omega arith;
    long = λ q k. rw t.mbufs (v.long q (t.behind q k));
    fits = inr (omega (arith, fits.mtu_min));
    room = inl (omega (arith, fits.arrays));
  }

  -- With nothing waiting, the state stays as it is.
  pub Kept-empty : {offset : ℕ} {st1 : Ingress} → Taken st none offset st1 → Kept st st1
  Kept-empty {offset} {st1} t = record {
    valid = record {
      distinct = λ q. rw (t.no_leftover, t.freeq, t.same) (v.distinct q);
      sound = rw t.mbufs v.sound;
      spacious = rw (t.mbufs, t.freeq) v.spacious;
      unused = rw t.mbufs v.unused;
      inq_valid = t.valid;
      freeq_valid = rw t.freeq v.freeq_valid;
      capacity = rw (t.no_leftover, t.freeq, t.same) v.capacity;
      long = λ q k. rw t.mbufs (v.long q (t.behind q k));
    };
    own = λ q. rw (t.no_leftover, t.freeq, t.same);
    size = ap (λ (mq : Mqueue). mq.size) t.freeq;
  }

  module _ {p offset : ℕ} {st1 : Ingress} {header : List ℕ} {f : Frame} (f' : Frame)
      (t : Taken st (some p) offset st1)
      (r : Filled c header (new_frame c sendmsg st1) (c.tfsmtu - 8) (some p) f)
      (mem : f'.mbufs ≡ f.mbufs) (inq : f'.inq ≡ f.inq) (freeq : f'.freeq ≡ f.freeq)
      (len : length (ptrs f'.leftover) + length f'.freem
        ≡ length (ptrs f.leftover) + length f.freem)
      (own : (q : ℕ)
        → count q (ptrs f'.leftover) + count q f'.freem
          ≡ count q (ptrs f.leftover) + count q f.freem) where
    same_freeq : f'.freeq ≡ st.freeq
    same_freeq = freeq ∙ r.freeq ∙ t.freeq

    same_space : (q : ℕ) → (f'.mbufs q).space ≡ (st.mbufs q).space
    same_space q =
        ap (λ (m : Memory). (m q).space) mem
        ∙ ap (λ (s : ℕ → List ℕ). s q) r.same_spaces
        ∙ ap (λ (m : Memory). (m q).space) t.mbufs

    -- The state before the used mbufs are released, once the frame has been sent.
    pub CanFree-sent : CanFree f'.st f'.freem
    CanFree-sent = record {
      sound = rw mem r.sound;
      spacious = λ q. rw (same_freeq, same_space) (v.spacious q);
      unused = λ q. rw mem (r.refcnts q ∙ rw t.mbufs (v.unused q));
      valid = rw same_freeq v.freeq_valid;
      room = omega (
        arith,
        v.capacity,
        len,
        r.own_len,
        ap length t.same,
        length-append (ptrs f.leftover) (stack f.inq),
        ap (λ (mq : Mqueue). mq.depth) same_freeq,
        ap (λ (mq : Mqueue). mq.size) same_freeq,
      );
    }

    own_sent :
        (q : ℕ)
        → count q (ptrs f'.leftover ++ stack f'.inq) + count q f'.freem ≡ count q (waiting st)
    own_sent q = omega (
      arith,
      own q,
      r.own q,
      ap (count q) t.same,
      count-append q (ptrs f.leftover) (stack f.inq),
      count-append q (ptrs f'.leftover) (stack f'.inq),
      ap (λ (mq : Mqueue). count q (stack mq)) inq,
    )

    module _ {st' : Ingress} (d : Freed f'.st f'.freem st') where
      pub same_waiting : waiting st' ≡ waiting f'.st
      same_waiting = rw (d.leftover, d.inq)

      own_freed :
          (q : ℕ)
          → count q (waiting st') + count q (stack st'.freeq)
            ≡ count q (waiting st) + count q (stack st.freeq)
      own_freed q = omega (
        arith,
        own_sent q,
        d.own q,
        ap (count q) same_waiting,
        ap (λ (mq : Mqueue). count q (stack mq)) same_freeq,
      )

      -- An mbuf that still waits has not been released.
      pub untouched : (q : ℕ) → 0 < count q (waiting f'.st) → st'.mbufs q ≡ f'.mbufs q
      untouched q k = d.others q (omega (arith, own_sent q, v.distinct q))

      still_long : (q : ℕ) → 0 < count q (stack f.inq) → 20 ≤ mbuf_len (st'.mbufs q)
      still_long q k =
          rw
            (
              untouched q (
                  omega (
                    arith,
                    k,
                    count-append q (ptrs f'.leftover) (stack f'.inq),
                    ap (λ (mq : Mqueue). count q (stack mq)) inq,
                  )),
              mem,
            )
            (r.long q k)

      pub Kept-freed : Kept st st'
      Kept-freed = record {
        valid = record {
          distinct = λ q. omega (arith, own_freed q, v.distinct q);
          sound = d.sound;
          spacious = λ q. omega (
            arith,
            v.spacious q,
            d.hdrspace,
            ap (λ (mq : Mqueue). mq.hdrspace) same_freeq,
            ap length (ap (λ (s : ℕ → List ℕ). s q) d.same_spaces ∙ same_space q),
          );
          unused = d.unused;
          inq_valid = rw (d.inq, inq) r.valid;
          freeq_valid = d.valid;
          capacity = omega (
            arith,
            v.capacity,
            d.depth,
            d.size,
            len,
            r.own_len,
            ap length t.same,
            ap length same_waiting,
            length-append (ptrs f.leftover) (stack f.inq),
            length-append (ptrs f'.leftover) (stack f'.inq),
            ap (λ (mq : Mqueue). length (stack mq)) inq,
            ap (λ (mq : Mqueue). mq.depth) same_freeq,
            ap (λ (mq : Mqueue). mq.size) same_freeq,
          );
          long = λ q k. still_long q (subst (λ mq. 0 < count q (stack mq)) (d.inq ∙ inq) k);
        };
        own = own_freed;
        size = d.size ∙ ap (λ (mq : Mqueue). mq.size) same_freeq;
      }
