-- ===== src/Receive/Counting.antt =====
-- A round of read_tfs_pkts of src/iptfs.c keeps the reference counts exact.
use iptfs.Prelude.{
  ℕ, ◌+◌, ◌/◌, ◌≡◌, ◌≢◌, refl, ap, ◌∙◌, sym, Bool, false, true, not, Bool-cases, inl, inr, List,
  ◌∷◌, length, count, count-append, ◌++◌, Option, Option-cases, none, some, ltb, ◌==◌, Outcome, ok,
  stop, ◌>>=◌, arith, ==→eq, ==→ne, ==_refl, Whenever, Whenever-bind, Whenever-if, Whenever-any,
  Whenever-split, Returns-value,
}
use iptfs.Bytes.{get32}
use iptfs.Mbuf.{Mbuf, store, decref, mbuf_reset}
use iptfs.Mqueue.{Mqueue, mqueue_pop}
use iptfs.Mqueue.Stack.{ptrs, stack, IsValid, Popped, mqueue_pop_lem}
use iptfs.Miov.{miov_reset, deref_all}
use iptfs.Util.Clock.{Timespec, st_check}
use iptfs.Util.RateLimit.{RateLimit}
use iptfs.Ack.{send_ack, recv_ack}
use iptfs.Ingress.{hdrspace}
use iptfs.Egress.{Egress}
use iptfs.Egress.Pieces.{pile}
use iptfs.Egress.Counted.{places, users, users-lt, Counted, Counted-mbufs}
use iptfs.Egress.Returned.{released-Counted}
use iptfs.Receive.{
  Receiver, check_seq, duplicate, after_loss, in_order, report_losses, next_tbuf, count_drop,
  over_limit, drop_partial, accept_frame, dispatch, receive_bytes, receive_datagram, set_mbuf,
}

-- The counts of the buffers are exact for the packet at hand and the buffer in use.
abbrev pub AllCounted : Receiver → Type 0
AllCounted r = Counted r.tbuf (ptrs r.m) r.egress

pub set_mbuf-Counted :
    {t : ℕ} {hand : List ℕ} {st : Egress} (p : ℕ) (v : Mbuf)
    → v.refcnt ≡ (st.mbufs p).refcnt
    → Counted t hand st
    → Counted t hand (set_mbuf st p v)
set_mbuf-Counted {st} p v same c =
    Counted-mbufs (store st.mbufs p v)
      (λ q. elim (Bool-cases (q == p)) [ inl e ↦ rw (e, ==→eq q p e) same | inr e ↦ rw e ]) c

pub report_losses-Counted :
    (oneonly : Bool) (now : Timespec) (r : Receiver)
    → AllCounted r
    → Whenever (λ s. AllCounted s.1) (report_losses oneonly now r)
unfolding report_losses
report_losses-Counted oneonly now r c =
    let (expired, timer) = st_check r.acktimer now in
    Whenever-if (λ s. AllCounted s.1) oneonly (ok (none, r)) _ c
      (Whenever-if (λ s. AllCounted s.1) expired _ (ok (none, record r { acktimer = timer }))
        (Whenever-bind (λ _. Unit {0}) (λ s. AllCounted s.1) (send_ack oneonly timer.ts r.ack) _
          (Whenever-any (send_ack oneonly timer.ts r.ack)) λ _ _. c)
        c)

-- `miov_reset(m, iovfreeq)`
abbrev pub without_pieces : Receiver → ℕ → Outcome Receiver
without_pieces r p = miov_reset r.egress.pool (r.egress.miovs p) >>= λ (pool', v).
    ok (record r { egress = record r.egress { pool = pool'; miovs = store r.egress.miovs p v } })

without_pieces-Counted :
    (r : Receiver) (p : ℕ)
    → count p (ptrs r.m) ≡ 1
    → AllCounted r
    → Whenever AllCounted (without_pieces r p)
unfolding miov_reset
without_pieces-Counted r p at_hand c =
    let once : count p (places (ptrs r.m) r.egress) ≡ 1 = ground (
      arith,
      at_hand,
      c.placed.distinct p,
      count-append p (ptrs r.m) (pile r.egress.iovfreeq ++ pile r.egress.outq),
    ) in
    let (pool', released, (c', _, _, _)) =
      Returns-value (deref_all r.egress.pool (r.egress.miovs p).mbufs)
        (released-Counted r.egress p c once) in
    rw released c'

drop_partial-Counted : (r : Receiver) → AllCounted r → Whenever AllCounted (drop_partial r)
unfolding drop_partial
drop_partial-Counted r c = elim (Option-cases r.m) [
  | inl e ↦ rw (drop_partial, e) c
  | inr (p, e) ↦
      (let dropped : drop_partial r ≡ without_pieces r p =
          ap (λ m. elim m [ none ↦ ok r | some q ↦ without_pieces r q ]) e in
        rw dropped (without_pieces-Counted r p (rw e (ground arith)) c))
]

accept_frame-Counted :
    (r : Receiver) (seq : ℕ) → AllCounted r → Whenever (λ s. AllCounted s.1) (accept_frame r seq)
unfolding accept_frame
accept_frame-Counted r seq c =
    elim (check_seq r.ack seq)
      as (λ a.
        Whenever (λ (s : Bool × Receiver). AllCounted s.1)
          (elim a [
            | duplicate ack ↦ ok (false, record r { ack = ack })
            | after_loss ack ↦ (drop_partial (record r { ack = ack }) >>= λ r'. ok (true, r'))
            | in_order ack ↦ ok (true, record r { ack = ack })
          ])) [
            | duplicate ack ↦ c
            | after_loss ack ↦
                Whenever-bind AllCounted (λ s. AllCounted s.1)
                  (drop_partial (record r { ack = ack })) _
                  (drop_partial-Counted (record r { ack = ack }) c) λ r' c'. c'
            | in_order ack ↦ c
          ]

dispatch-Counted :
    (oneonly : Bool) (r : Receiver)
    → AllCounted r
    → Whenever (λ s. AllCounted s.1) (dispatch oneonly r)
unfolding dispatch
dispatch-Counted oneonly r c =
    let v = r.egress.mbufs r.tbuf in
    let offset = get32 v.space (v.start + 4) in
    Whenever-if (λ s. AllCounted s.1) (offset / 1073741824 == 1) _ _
      (Whenever-bind (λ _. Unit {0}) (λ s. AllCounted s.1) (recv_ack oneonly r.ctl v) _
        (Whenever-any (recv_ack oneonly r.ctl v)) λ _ _. c)
      (Whenever-if (λ s. AllCounted s.1) (not (offset / 2147483648 == 0)) (ok (false, count_drop r))
        (accept_frame r (get32 v.space v.start)) c
        (accept_frame-Counted r (get32 v.space v.start) c))

pub receive_datagram-Counted :
    (oneonly : Bool) (now : Timespec) (r : Receiver) (datagram : Option (List ℕ))
    → AllCounted r
    → Whenever (λ s. AllCounted s.1) (receive_datagram oneonly now r datagram)
unfolding receive_datagram
receive_datagram-Counted oneonly now r none c = c
receive_datagram-Counted oneonly now r (some bytes) c =
    let v = receive_bytes (r.egress.mbufs r.tbuf) bytes in
    let r1 = record r { egress = set_mbuf r.egress r.tbuf v } in
    let whole = record v { end = v.start + length bytes } in
    let filled = λ (rl' : Option RateLimit). record r1 {
      rl = rl';
      egress = set_mbuf r1.egress r.tbuf whole;
    } in
    let c1 : AllCounted r1 = set_mbuf-Counted r.tbuf v refl c in
    let c2 : (rl' : Option RateLimit) → AllCounted (filled rl') =
      λ rl'. set_mbuf-Counted r.tbuf whole (rw (==_refl r.tbuf)) c1 in
    Whenever-if (λ s. AllCounted s.1) (length bytes == 0) (ok (false, r1)) _ c1
      (Whenever-if (λ s. AllCounted s.1) (ltb (length bytes) 8) (ok (false, count_drop r1)) _ c1
        (Whenever-bind (λ _. Unit {0}) (λ s. AllCounted s.1) (over_limit r.rl (length bytes) now) _
          (Whenever-any (over_limit r.rl (length bytes) now))
          λ (dropped, rl') _.
            Whenever-if (λ s. AllCounted s.1) dropped
              (ok (false, count_drop (record r1 { rl = rl' }))) (dispatch oneonly (filled rl')) c1
              (dispatch-Counted oneonly (filled rl') (c2 rl'))))

-- A buffer from the free queue has no references.
module _ {t p : ℕ} {hand : List ℕ} {st : Egress} (c : Counted t hand st) (freeq' : Mqueue)
    (top : stack st.pool.freeq ≡ p ∷ stack freeq') (valid : IsValid freeq')
    (size : freeq'.size ≡ st.pool.freeq.size) (shared : (st.mbufs t).refcnt ≢ 1) where
  unused : users t hand st p ≡ 0
  unused = ground (arith, c.counted.free p, ap (count p) top)

  -- The state with `p` in place of `t`.
  abbrev replaced : Egress
  replaced =
      let released = set_mbuf st t (decref (st.mbufs t)) in
      let st1 = record released { pool = record released.pool { freeq = freeq' } } in
      set_mbuf st1 p (record (st1.mbufs p) { refcnt = 1 })

  replaced-Counted : Counted p hand replaced
  replaced-Counted = record {
    placed = record {
      outq = c.placed.outq;
      outq_in = c.placed.outq_in;
      resets = c.placed.resets;
      storage = c.placed.storage;
      size = c.placed.size;
      distinct = c.placed.distinct;
      few = c.placed.few;
      empty = c.placed.empty;
      fits = c.placed.fits;
    };
    counted = record {
      valid = valid;
      size = size ∙ c.counted.size;
      refcnts = λ q.
          ground (arith, c.counted.refcnts q, c.counted.refcnts t, unused, users-lt t q c.placed);
      free = λ q.
          ground (arith, c.counted.free q, ap (count q) top, c.counted.refcnts t, unused, shared);
      inside = λ q k. ground (arith, c.counted.inside q, c.counted.free p, ap (count p) top);
    };
  }

-- "If no one referenced the mbuf": its count is 1 again.
reused-Counted :
    (r : Receiver) (v : Mbuf)
    → (r.egress.mbufs r.tbuf).refcnt ≡ 1
    → AllCounted r
    → let released = set_mbuf r.egress r.tbuf (decref (r.egress.mbufs r.tbuf)) in
      AllCounted (record r { egress = set_mbuf released r.tbuf (record v { refcnt = 1 }) })
reused-Counted r v alone c =
    let released = set_mbuf r.egress r.tbuf (decref (r.egress.mbufs r.tbuf)) in
    Counted-mbufs (set_mbuf released r.tbuf (record v { refcnt = 1 })).mbufs
      (λ q. elim (Bool-cases (q == r.tbuf)) [
        | inl e ↦ rw (e, ==→eq q r.tbuf e) (sym alone)
        | inr e ↦ rw e
      ])
      c

-- What mqueue_pop returns.
abbrev IsTop : Mqueue → ℕ × Mqueue → Type 0
IsTop mq (p, mq') =
    (stack mq ≡ p ∷ stack mq') × IsValid mq' × (mq'.size ≡ mq.size) × (mq'.hdrspace ≡ mq.hdrspace)

IsTop-pop : (mq : Mqueue) (o : Outcome (ℕ × Mqueue)) → Popped mq o → Whenever (IsTop mq) o
IsTop-pop mq (ok (p, mq')) h = h
IsTop-pop mq (stop e) h = tt

pub next_tbuf-Counted : (r : Receiver) → AllCounted r → Whenever AllCounted (next_tbuf r)
unfolding next_tbuf
next_tbuf-Counted r c =
    let v = r.egress.mbufs r.tbuf in
    let released = set_mbuf r.egress r.tbuf (decref v) in
    let reset = mbuf_reset (decref v) hdrspace in
    let mq = r.egress.pool.freeq in
    Whenever-split AllCounted (v.refcnt == 1) _ _
      (λ alone.
        Whenever-bind (λ _. Unit {0}) AllCounted reset _ (Whenever-any reset)
          λ v' _. reused-Counted r v' (==→eq v.refcnt 1 alone) c)
      λ shared.
        Whenever-bind (IsTop mq) AllCounted (mqueue_pop mq) _
          (IsTop-pop mq (mqueue_pop mq) (mqueue_pop_lem c.counted.valid))
          λ (p, freeq') (top, valid, size, _).
            replaced-Counted c freeq' top valid size (==→ne v.refcnt 1 shared)
