-- ===== src/Tunnel/Tests.antt =====
-- The ingress side of src/iptfs.c after the first packet, and small queues.
use iptfs.Prelude.{
  ℕ, ◌≤◌, ◌≡◌, refl, false, List, [], ◌∷◌, replicate, length, length-replicate, count, none, some,
  ltb, if◌then◌else◌, Outcome, ok, stop, Returns, arith,
}
use iptfs.Mbuf.{Memory, mbuf_len}
use iptfs.Mqueue.{Mqueue, mqueue_new, mqueue_new_freeq, mqueue_pop, mqueue_push}
use iptfs.Mqueue.Stack
use iptfs.Mqueue.Stack.{stack}
use iptfs.Mqueue.Init.{mqueue_new_freeq_lem}
use iptfs.Ingress.{Config, Ingress, maxbuf, write_tfs_pkt}
use iptfs.Ingress.State.{Fits, IsValid}
use iptfs.Ingress.Sent.{Kept}
use iptfs.Interface.{keep_packet, read_intf_pkt}
use iptfs.Interface.Read.{FitsBuffer, Queued, read_intf_pkt_lem}
use iptfs.Tunnel.{innerqsz, new_queues, new_ingress, start, read, pop, keep}
use iptfs.Tunnel.Buffers.{Complete, new_queues-Complete, no_buffer_lost}

abbrev fresh : Memory
fresh p = record {
  space = replicate maxbuf 0;
  espace = 0;
  start = 0;
  end = 0;
  left = 0;
  refcnt = 0;
}

abbrev config : Config
config = record { tfsmtu = 1500; max_inner_pkt = 460; dontfrag = false; oneonly = false }

fits : Fits config
fits = record { mtu_min = omega arith; mtu_max = omega arith; arrays = omega arith }

abbrev packet : List ℕ
packet = 69 ∷ replicate 19 7

abbrev state_of : Outcome Ingress → Ingress
state_of (ok st) = st
state_of (stop e) = new_ingress fresh

abbrev queue_of : Outcome (ℕ × Mqueue) → Mqueue
queue_of (ok (p, mq)) = mq
queue_of (stop e) = mqueue_new 0

-- The reading thread holds the last of the buffers.
abbrev taken : Ingress
taken = record (new_ingress fresh) { freeq = queue_of (mqueue_pop (new_ingress fresh).freeq) }

taken_lem : mqueue_pop (new_ingress fresh).freeq ≡ ok (255, taken.freeq)
unfolding new_ingress new_queues mqueue_pop
taken_lem = refl

abbrev first_read : Ingress
first_read = state_of (keep_packet taken 255 (some packet))

first_read_lem : keep_packet taken 255 (some packet) ≡ ok first_read
unfolding new_ingress new_queues mqueue_pop keep_packet mqueue_push
first_read_lem = refl

buffer_size : (p : ℕ) → length (fresh p).space ≡ maxbuf
buffer_size p = length-replicate {A = ℕ} maxbuf 0

-- Two buffers.
mqueue_new_freeq_lem_example :
    let (mq, mem) = mqueue_new_freeq 2 100 24 fresh in
    Stack.IsValid mq
    × (mq.depth ≡ 2)
    × (mq.size ≡ 2)
    × (mq.hdrspace ≡ 24)
    × ((q : ℕ) → count q (stack mq) ≡ (if ltb q 2 then 1 else 0))
    × ((p : ℕ)
        → (mbuf_len (mem p) ≡ 0)
          × ((mem p).start ≡ 24)
          × ((mem p).espace ≡ 100)
          × ((mem p).space ≡ (fresh p).space)
          × ((mem p).refcnt ≡ (fresh p).refcnt))
mqueue_new_freeq_lem_example = mqueue_new_freeq_lem 2 100 24 fresh

abbrev two_buffers : Ingress
two_buffers = new_queues 2 fresh

two_buffers-IsValid : IsValid two_buffers
two_buffers-IsValid = (new_queues-Complete 2 fresh buffer_size (λ p. refl)).0

top_1 : stack two_buffers.freeq ≡ 1 ∷ 0 ∷ []
unfolding new_queues
top_1 = refl

packet_fits : FitsBuffer (two_buffers.mbufs 1) (some packet)
unfolding new_queues
packet_fits = (omega arith, omega (arith, buffer_size 1))

same_size : two_buffers.freeq.size ≤ two_buffers.inq.size
unfolding new_queues mqueue_new
same_size = omega arith

read_intf_pkt_lem_example :
    Returns
      (λ st'. Kept two_buffers st' × Queued two_buffers 1 (some packet) st')
      (read_intf_pkt two_buffers (some packet))
read_intf_pkt_lem_example =
    read_intf_pkt_lem 1 (0 ∷ []) (some packet) two_buffers-IsValid same_size top_1 packet_fits

first_fits : FitsBuffer (taken.mbufs 255) (some packet)
unfolding new_ingress new_queues
first_fits = (omega arith, omega (arith, buffer_size 255))

new_ingress-Complete : Complete innerqsz none (new_ingress fresh)
unfolding new_ingress
new_ingress-Complete = new_queues-Complete innerqsz fresh buffer_size (λ p. refl)

no_buffer_lost_example :
    Complete innerqsz none first_read
    × Returns (λ r. Complete innerqsz none r.2) (write_tfs_pkt config (λ d. none) first_read 1)
no_buffer_lost_example =
    no_buffer_lost config (λ d. none) fits innerqsz 1 new_ingress-Complete
      (read (read start (pop taken_lem)) (keep (some packet) first_fits first_read_lem))
