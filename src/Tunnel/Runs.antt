-- ===== src/Tunnel/Runs.antt =====
-- Frame after frame through the tunnel, with the packets written to the interface in between
-- (write_tfs_pkt, add_to_inner_packet and write_intf_pkts of src/iptfs.c).
mod Tests
use iptfs.Prelude.{
  ℕ, suc, ◌+◌, ◌-◌, ◌≤◌, ◌<◌, ◌≡◌, ◌≢◌, refl, ap, ◌∙◌, sym, subst, true, List, [], ◌∷◌, ◌++◌, map,
  length, count, count-append, Option, none, some, Outcome, ok, Returns, u16, arith, map-ext_on,
}
use iptfs.Mbuf.{Memory, mbuf_bytes}
use iptfs.Mqueue.Stack.{ptrs}
use iptfs.Miov.{Miov, Miovq, niov}
use iptfs.Miov.Deref.{CanDeref}
use iptfs.Packing.{first_len}
use iptfs.Packing.Glue.{glue, glue-nil, ahead}
use iptfs.Ingress.{Config, Ingress, write_tfs_pkt}
use iptfs.Ingress.Dense.{IsDense}
use iptfs.Ingress.State as Sender
use iptfs.Ingress.State.{Fits, unsent}
use iptfs.Ingress.Sent.{Kept, Sent}
use iptfs.Ingress.Write.{write_tfs_pkt_lem}
use iptfs.Egress.{Egress, add_to_inner_packet}
use iptfs.Egress.Pieces.{pile, content}
use iptfs.Egress.Carry.{Fresh, pushed, all_miovs, IsValid, HasRoom, Holds}
use iptfs.Egress.Frame.{IsReady}
use iptfs.Egress.Output.{write_intf_pkt, Written, HasSpace, write_intf_pkt_lem}
use iptfs.Tunnel.Passage.{InStep, Passes, frame-Passes}

-- The datagram `d` has come into the buffer `t`, which holds none of the packets, and there is room for
-- `n` packets.
pub record Arrives (rx : Egress) (m : Option ℕ) (t : ℕ) (d : List ℕ) (n : ℕ) (rx1 : Egress)
    : Type 0 where
  pub bytes : mbuf_bytes (rx1.mbufs t) ≡ d
  pub miovs : rx1.miovs ≡ rx.miovs
  pub iovfreeq : rx1.iovfreeq ≡ rx.iovfreeq
  pub outq : rx1.outq ≡ rx.outq
  pub contents : (q : ℕ) → 0 < count q (all_miovs rx m) → content rx1 q ≡ content rx q
  pub pieces : (p : ℕ) → m ≡ some p → niov (rx.miovs p) < (rx.miovs p).maxiov
  pub room : HasRoom rx1 t n
  pub supply : n < length (pile rx1.iovfreeq)

-- The states of the two ends, with the packet at hand and the packets written so far, the last first.
pub data Run (c : Config) (sendmsg : List ℕ → Option ℕ) (tx : Ingress) (rx : Egress)
    : Ingress → ℕ → Egress → Option ℕ → List (List ℕ) → Type 0 where
  start : (seq : ℕ) → Run c sendmsg tx rx tx seq rx none []
  frame :
      {st st' : Ingress} {seq seq' : ℕ} {rx0 rx1 rx2 : Egress} {m m' : Option ℕ} {t : ℕ}
      {d : List ℕ} {written : List (List ℕ)} (k : ℕ)
      → Run c sendmsg tx rx st seq rx0 m written
      → write_tfs_pkt c sendmsg st seq ≡ ok (seq', some d, st')
      → Arrives rx0 m t d (length (unsent st)) rx1
      → first_len (unsent st) < u16
      → c.tfsmtu ≤ k
      → add_to_inner_packet (suc k) rx1 t true m ≡ ok (m', rx2)
      → Run c sendmsg tx rx st' seq' rx2 m' written
  write :
      {st : Ingress} {seq : ℕ} {rx0 rx1 : Egress} {m : Option ℕ} {p : ℕ} {ps : List ℕ} {b : List ℕ}
      {written : List (List ℕ)}
      → Run c sendmsg tx rx st seq rx0 m written
      → pile rx0.outq ≡ p ∷ ps
      → HasSpace rx0.iovfreeq
      → 0 < (rx0.miovs p).maxiov
      → CanDeref rx0.pool (rx0.miovs p).mbufs
      → write_intf_pkt rx0 ≡ ok (b, rx1)
      → Run c sendmsg tx rx st seq rx1 m (b ∷ written)

abbrev pub AllOf : (List ℕ → Type 0) → List (List ℕ) → Type 0
AllOf Q [] = Unit {0}
AllOf Q (x ∷ xs) = Q x × AllOf Q xs

module _ (Q : List ℕ → Type 0) where
  AllOf-split : (xs ys : List (List ℕ)) → AllOf Q (xs ++ ys) → AllOf Q xs × AllOf Q ys
  AllOf-split [] ys h = (tt, h)
  AllOf-split (x ∷ xs) ys (q, h) = let (a, b) = AllOf-split xs ys h in ((q, a), b)

  AllOf-pushed : (xs s : List (List ℕ)) → AllOf Q xs → AllOf Q s → AllOf Q (pushed xs s)
  AllOf-pushed [] s h k = k
  AllOf-pushed (x ∷ xs) s (q, h) k = AllOf-pushed xs (x ∷ s) h (q, k)

-- The packets still to come, the finished and the written ones are good ones.
record Good (Q : List ℕ → Type 0) (st : Ingress) (rx : Egress) (m : Option ℕ)
    (bytes : List (List ℕ)) : Type 0 where
  acc : List ℕ
  sender : Sender.IsValid st
  agree : InStep st acc
  valid : IsValid rx m
  holds : Holds rx m acc (first_len (unsent st))
  waiting : AllOf Q (glue acc (unsent st))
  finished : AllOf Q (map (content rx) (pile rx.outq))
  written : AllOf Q bytes

-- The arrival of a frame changes no packet.
IsReady-arrived :
    {rx : Egress} {m : Option ℕ} {t : ℕ} {d : List ℕ} {n : ℕ} {rx1 : Egress} {acc : List ℕ}
    {left : ℕ}
    → IsValid rx m
    → Holds rx m acc left
    → Arrives rx m t d n rx1
    → IsReady rx1 m acc left
IsReady-arrived {rx} {m} {rx1 = rx1} {acc} {left} v h a = record {
  valid = record {
    outq = rw a.outq v.outq;
    distinct = rw (a.iovfreeq, a.outq) v.distinct;
    fresh = rw (a.iovfreeq, a.miovs) v.fresh;
  };
  holds = Holds_at m h a.contents;
  pieces = rw a.miovs a.pieces;
}
  where
    Holds_at :
        (m : Option ℕ)
        → Holds rx m acc left
        → ((q : ℕ) → 0 < count q (all_miovs rx m) → content rx1 q ≡ content rx q)
        → Holds rx1 m acc left
    Holds_at none h same = h
    Holds_at (some p) (bytes, len, left, empty) same =
        (same p (ground arith) ∙ bytes, rw a.miovs len, rw a.miovs left, rw a.miovs empty)

ahead-le : (acc : List ℕ) (ps : List (List ℕ)) → ahead acc ps ≤ first_len ps
ahead-le [] ps = omega arith
ahead-le (x ∷ acc) ps = omega arith

-- A frame keeps them good.
Good-frame :
    {c : Config} {sendmsg : List ℕ → Option ℕ} (Q : List ℕ → Type 0) {st st' : Ingress} (seq : ℕ)
    {seq' : ℕ} {rx0 rx1 rx2 : Egress} {m m' : Option ℕ} {t : ℕ} {d : List ℕ}
    {written : List (List ℕ)} (k : ℕ)
    → Fits c
    → IsDense c
    → ((d' : List ℕ) → sendmsg d' ≡ some c.tfsmtu)
    → Good Q st rx0 m written
    → write_tfs_pkt c sendmsg st seq ≡ ok (seq', some d, st')
    → Arrives rx0 m t d (length (unsent st)) rx1
    → first_len (unsent st) < u16
    → c.tfsmtu ≤ k
    → add_to_inner_packet (suc k) rx1 t true m ≡ ok (m', rx2)
    → Good Q st' rx2 m' written
Good-frame {c} {sendmsg} Q {st} {st'} seq {rx0 = rx0} {rx1} {rx2} {m} {m'} {t} {d} k fits dense all
      g sent a small enough came =
    let kept : Kept st st' =
      (subst
        (Returns (λ (seq', datagram, st'). Kept st st' × Sent c sendmsg st seq seq' datagram st'))
        sent (write_tfs_pkt_lem c sendmsg fits seq g.sender)).0 in
    let passes : Passes st g.acc rx1 t m st' m' rx2 =
      subst (Returns (λ (m', rx'). Passes st g.acc rx1 t m st' m' rx')) came (
        frame-Passes fits dense all seq g.sender g.agree m k sent enough
          (omega (arith, small, ahead-le g.acc (unsent st))) a.bytes
          (IsReady-arrived g.valid g.holds a) a.room a.supply) in
    let (out, rest) =
      AllOf-split Q passes.out (glue passes.acc' (unsent st'))
        (subst (AllOf Q) passes.conserved g.waiting) in
    record {
      acc = passes.acc';
      sender = kept.valid;
      agree = passes.in_step;
      valid = passes.delivered.valid;
      holds = passes.delivered.holds;
      waiting = rest;
      finished = subst (AllOf Q) (sym passes.delivered.outputs) (
          AllOf-pushed Q passes.out (map (content rx1) (pile rx1.outq)) out
            (subst (AllOf Q) (sym same) g.finished));
      written = g.written;
    }
  where
    same : map (content rx1) (pile rx1.outq) ≡ map (content rx0) (pile rx0.outq)
    same = rw a.outq (
        map-ext_on (content rx1) (content rx0) (pile rx0.outq) (λ q k. a.contents q (
          omega (
            arith,
            k,
            count-append q (ptrs m) (pile rx0.iovfreeq ++ pile rx0.outq),
            count-append q (pile rx0.iovfreeq) (pile rx0.outq),
          ))))

-- The packet that was written was only there.
apart :
    {rx0 rx1 : Egress} {m : Option ℕ} {p : ℕ} {b : List ℕ} (q : ℕ)
    → IsValid rx0 m
    → Written rx0 m p b rx1
    → 0 < count q (ptrs m) + count q (pile rx1.outq)
    → q ≢ p
apart {rx0} {rx1} {m} {p} q v w k =
    let nowhere : count p (ptrs m) + count p (pile rx1.outq) ≡ 0 = ground (
      arith,
      v.distinct p,
      ap (count p) w.outq,
      count-append p (ptrs m) (pile rx0.iovfreeq ++ pile rx0.outq),
      count-append p (pile rx0.iovfreeq) (pile rx0.outq),
    ) in
    λ e. absurd (omega (arith, nowhere, k, ap (λ j. count j (ptrs m) + count j (pile rx1.outq)) e))

Holds-others :
    {rx0 rx1 : Egress} {m : Option ℕ} {p : ℕ} {b : List ℕ} (acc : List ℕ) (left : ℕ)
    → IsValid rx0 m
    → Written rx0 m p b rx1
    → Holds rx0 m acc left
    → Holds rx1 m acc left
Holds-others {m = none} acc left v w h = h
Holds-others {m = some q} acc n v w (bytes, len, left, empty) =
    let ne = apart q v w (ground arith) in
    (w.others q ne ∙ bytes, rw (w.same q ne) len, rw (w.same q ne) left, rw (w.same q ne) empty)

-- Writing the packet that was finished last keeps them good.
Good-write :
    (Q : List ℕ → Type 0) {st : Ingress} {rx0 rx1 : Egress} {m : Option ℕ} {p : ℕ} {b : List ℕ}
    {written : List (List ℕ)}
    → Good Q st rx0 m written
    → Written rx0 m p b rx1
    → Good Q st rx1 m (b ∷ written)
Good-write Q {st} {rx0} {rx1} {m} {p} {b} g w =
    let (good, others) = subst (λ l. AllOf Q (map (content rx0) l)) w.outq g.finished in
    record {
      acc = g.acc;
      sender = g.sender;
      agree = g.agree;
      valid = w.valid;
      holds = Holds-others g.acc (first_len (unsent st)) g.valid w g.holds;
      waiting = g.waiting;
      finished =
          subst (AllOf Q)
            (sym (
              map-ext_on (content rx1) (content rx0) (pile rx1.outq)
                (λ q k. w.others q (apart q g.valid w (omega (arith, k))))))
            others;
      written = (subst Q (sym w.sent) good, g.written);
    }

module _ (Q : List ℕ → Type 0) {c : Config} {sendmsg : List ℕ → Option ℕ} (fits : Fits c)
    (dense : IsDense c) (all : (d : List ℕ) → sendmsg d ≡ some c.tfsmtu) {tx : Ingress}
    {rx : Egress} (sender : Sender.IsValid tx) (agree : InStep tx []) (valid : IsValid rx none)
    (idle : pile rx.outq ≡ []) (good : AllOf Q (unsent tx)) where
  Good-run :
      {st : Ingress} {seq : ℕ} {rx' : Egress} {m : Option ℕ} {written : List (List ℕ)}
      → Run c sendmsg tx rx st seq rx' m written
      → Good Q st rx' m written
  Good-run (start seq) = record {
    acc = [];
    sender = sender;
    agree = agree;
    valid = valid;
    holds = refl;
    waiting = subst (AllOf Q) (sym (glue-nil (unsent tx))) good;
    finished = rw idle tt;
    written = tt;
  }
  Good-run (frame {seq = seq} k run sent a small enough came) =
      Good-frame Q seq k fits dense all (Good-run run) sent a small enough came
  Good-run (write {m = m} {p} run e space some_iov refs came) =
      let g = Good-run run in
      Good-write Q g (
        subst (Returns (λ (b, rx1). Written _ m p b rx1)) came
          (write_intf_pkt_lem _ g.valid e space some_iov refs))

  -- Over any number of frames, each sent by write_tfs_pkt, received in a buffer that holds no
  -- packet, while the queues have room and the packet at hand has room for a piece, and given to
  -- add_to_inner_packet, with packets written by write_intf_pkts in between: whatever holds of
  -- every packet that waits at the sender at the start holds of every packet that is written to the
  -- interface, so that each of them is one that was sent, with all its bytes. The MTU fits the
  -- arrays, frames may split packets and hold several, sendmsg sends all it is given, the sender is
  -- valid and its packets are IPv4 packets, and the receiver is valid and has nothing at hand or
  -- finished at the start.
  pub written_packets :
      {st : Ingress} {seq : ℕ} {rx' : Egress} {m : Option ℕ} {written : List (List ℕ)}
      → Run c sendmsg tx rx st seq rx' m written
      → AllOf Q written
  written_packets run = (Good-run run).written
