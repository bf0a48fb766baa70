-- ===== src/Egress/Setup.antt =====
-- The queues and averages that tfs_tunnel_egress of src/iptfs.c makes. What malloc returns is an
-- argument, `fresh` for the buffers and `fresh_miovs` for the packets.
use iptfs.Prelude.{
  ℕ, zero, suc, ◌+◌, ◌/◌, ◌≤◌, ◌≡◌, ◌≢◌, refl, ap, ◌∙◌, true, false, not, ◌&&◌, [], length, count,
  set, length-set, length-replicate, ltb, leb, ◌==◌, if◌then◌else◌, Outcome, ok, guard,
  divided_by_zero, ◌>>◌, Returns, arith, ne→==,
}
use iptfs.Mbuf.{Memory, mbuf_len}
use iptfs.Mqueue.{mqueue_new_freeq}
use iptfs.Mqueue.Stack.{below-push, stack}
use iptfs.Mqueue.Init.{mqueue_new_freeq_lem}
use iptfs.Miov.{Miov, Miovq, miovq_new, fill_miovq, miovq_new_freeq}
use iptfs.Util.RunAvg.{RunAvg, runavg_new}
use iptfs.Ingress.{maxbuf, hdrspace}
use iptfs.Egress.{Egress}
use iptfs.Egress.Pieces.{pile}

abbrev pub outerqsz : ℕ
outerqsz = 256

-- The buffers and queues, g_avgpps and g_avgdrops. A tunnel MTU of 0 is divided by.
unfoldable pub new_egress : ℕ → Memory → (ℕ → Miov) → Outcome (Egress × RunAvg × RunAvg)
unfolding mqueue_new_freeq miovq_new_freeq miovq_new runavg_new
new_egress tfsmtu fresh fresh_miovs =
    let (freeq, mbufs) = mqueue_new_freeq outerqsz maxbuf hdrspace fresh in
    let (iovfreeq, miovs) = miovq_new_freeq outerqsz (maxbuf / tfsmtu + 2) fresh_miovs in
    let st : Egress = record {
      pool = record { mbufs = mbufs; freeq = freeq };
      miovs = miovs;
      iovfreeq = iovfreeq;
      outq = miovq_new outerqsz;
    } in
    guard (not (tfsmtu == 0)) divided_by_zero >> ok (st, runavg_new 5 1, runavg_new 5 1)

-- What the loop of miovq_new_freeq makes of a queue.
pub record Fills (n : ℕ) (mq mq' : Miovq) : Type 0 where
  pub depth : mq'.depth ≡ mq.depth + n
  pub size : mq'.size ≡ mq.size
  pub has_freeq : mq'.has_freeq ≡ mq.has_freeq
  pub storage : length mq'.queue ≡ length mq.queue
  pub supply : length (pile mq') ≡ length (pile mq) + n
  pub own :
      (q : ℕ)
      → count q (pile mq')
        ≡ count q (pile mq) + (if leb mq.depth q && ltb q (mq.depth + n) then 1 else 0)

pub fill_miovq-Fills :
    (n : ℕ) (mq : Miovq) → mq.depth + n ≤ length mq.queue → Fills n mq (fill_miovq n mq.depth mq)
unfolding fill_miovq
fill_miovq-Fills zero mq h = record {
  depth = omega arith;
  size = refl;
  has_freeq = refl;
  storage = refl;
  supply = omega arith;
  own = λ q. ground arith;
}
fill_miovq-Fills (suc n) mq h =
    let mq1 : Miovq = record mq { queue = set mq.queue mq.depth mq.depth; depth = mq.depth + 1 } in
    let top = below-push mq.queue mq.depth mq.depth (omega (arith, h)) in
    let same = length-set mq.queue mq.depth mq.depth in
    let f = fill_miovq-Fills n mq1 (omega (arith, h, same)) in
    record {
      depth = omega (arith, f.depth);
      size = f.size;
      has_freeq = f.has_freeq;
      storage = f.storage ∙ same;
      supply = omega (arith, f.supply, ap length top);
      own = λ q. ground (arith, f.own q, ap (count q) top);
    }

-- For a tunnel MTU other than 0 and whatever malloc returns, tfs_tunnel_egress makes 256 free packets,
-- each of them once on their queue, with room for MAXBUF / MTU + 2 pieces and the rest of the struct as
-- malloc left it; room for 256 finished packets, of which there is none; and 256 free buffers, each of
-- them once on their queue, empty behind the header space and with the reference count that malloc left
-- in it. The queue of free packets is one that gives references to buffers back, and that of finished
-- ones is not.
pub new_egress_lem :
    (tfsmtu : ℕ) (fresh : Memory) (fresh_miovs : ℕ → Miov)
    → tfsmtu ≢ 0
    → Returns
        (λ (st, avgpps, avgdrops).
          ((q : ℕ) → count q (pile st.iovfreeq) ≡ (if ltb q outerqsz then 1 else 0))
          × ((p : ℕ) → st.miovs p ≡ record (fresh_miovs p) { maxiov = maxbuf / tfsmtu + 2 })
          × (pile st.outq ≡ [])
          × (st.outq.depth + outerqsz ≡ st.outq.size)
          × ((q : ℕ) → count q (stack st.pool.freeq) ≡ (if ltb q outerqsz then 1 else 0))
          × ((p : ℕ)
              → (mbuf_len (st.mbufs p) ≡ 0)
                × ((st.mbufs p).start ≡ hdrspace)
                × ((st.mbufs p).refcnt ≡ (fresh p).refcnt))
          × (st.iovfreeq.has_freeq ≡ true)
          × (st.outq.has_freeq ≡ false))
        (new_egress tfsmtu fresh fresh_miovs)
unfolding new_egress miovq_new_freeq miovq_new
new_egress_lem tfsmtu fresh fresh_miovs nonzero =
    let f =
      fill_miovq-Fills outerqsz (record (miovq_new outerqsz) { has_freeq = true })
        (omega (arith, length-replicate {A = ℕ} outerqsz 0)) in
    let (valid, depth, size, hdr, own, mems) =
      mqueue_new_freeq_lem outerqsz maxbuf hdrspace fresh in
    rw (ne→== tfsmtu 0 nonzero) (
      λ q. ground (arith, f.own q),
      λ p. refl,
      refl,
      refl,
      λ q. ground (arith, own q),
      λ p. ((mems p).0, (mems p).1, (mems p).4),
      f.has_freeq,
      refl,
    )
