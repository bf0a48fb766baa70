-- ===== src/Ingress/Sent.antt =====
-- What a call of write_tfs_pkt (src/iptfs.c) does, as a relation between the states before and after it.
use iptfs.Prelude.{
  ℕ, ◌+◌, ◌-◌, ◌%◌, ◌<◌, ◌≡◌, inl, inr, ap, ◌∙◌, true, List, [], ◌++◌, length, count, replicate,
  Option, none, some, Option-cases, arith, u32,
}
use iptfs.Mbuf.{mbuf_len}
use iptfs.Mqueue.Stack.{stack}
use iptfs.Ingress.{Config, Ingress, Frame, frame_header}
use iptfs.Ingress.Stream.{stream, packets, offset_of}
use iptfs.Ingress.State.{waiting, IsValid}
use iptfs.Packing.{Packed, pack}
use iptfs.Packing.Glue.{ahead, Packs-pack}
use iptfs.Ingress.Dense.{IsPacked}

-- What write_tfs_pkt sends: nothing, in the one-packet mode with nothing waiting; or a frame of the
-- size of the MTU, with the number `seq`, the offset of the first new packet, the bytes `sent` and
-- padding. If all of it was sent, then `sent` is what was taken off the waiting stream.
pub data Sent (c : Config) (sendmsg : List ℕ → Option ℕ) (st : Ingress) (seq : ℕ)
    : ℕ → Option (List ℕ) → Ingress → Type 0 where
  nothing :
      {st' : Ingress} → c.oneonly ≡ true → waiting st ≡ [] → Sent c sendmsg st seq seq none st'
  frame :
      {st' : Ingress} {seq' : ℕ} {datagram : List ℕ} (sent : List ℕ) (zeros : ℕ)
      → seq' ≡ (seq + 1) % u32
      → datagram ≡ frame_header seq (offset_of st) ++ (sent ++ replicate zeros 0)
      → 8 + length sent + zeros ≡ c.tfsmtu
      → (sendmsg datagram ≡ some c.tfsmtu
          → stream st.mbufs (waiting st) ≡ sent ++ stream st'.mbufs (waiting st'))
      → Sent c sendmsg st seq seq' (some datagram) st'

-- What write_tfs_pkt sends and what it leaves where it may split packets and put several in a frame,
-- as `pack` says.
pub record SentPacked (c : Config) (st : Ingress) (seq : ℕ) (datagram : Option (List ℕ))
    (st' : Ingress) : Type 0 where
  pub frame :
      datagram
      ≡ some (
          frame_header seq (offset_of st)
          ++ (pack (c.tfsmtu - 8) (packets st.mbufs (waiting st))).payload)
  pub rest :
      packets st'.mbufs (waiting st') ≡ (pack (c.tfsmtu - 8) (packets st.mbufs (waiting st))).rest
  pub offset :
      offset_of st'
      ≡ ahead
          (pack (c.tfsmtu - 8) (packets st.mbufs (waiting st))).part
          (pack (c.tfsmtu - 8) (packets st.mbufs (waiting st))).rest

pub offset_kept :
    (st st' : Ingress)
    → st'.leftover ≡ st.leftover
    → ((q : ℕ) → 0 < count q (waiting st) → st'.mbufs q ≡ st.mbufs q)
    → offset_of st' ≡ offset_of st
offset_kept st st' e same = elim (Option-cases st.leftover) [
  | inl e' ↦ rw (e, e')
  | inr (p, some_left) ↦ rw (e, some_left) (ap mbuf_len (same p (rw some_left (ground arith))))
]

pub SentPacked-frame :
    (c : Config) {st : Ingress} {seq : ℕ} {ps : List (List ℕ)} {f : Frame} {payload : List ℕ}
    {datagram : List ℕ} {st' : Ingress}
    → IsPacked ps (c.tfsmtu - 8) payload f
    → ps ≡ packets st.mbufs (waiting st)
    → datagram ≡ frame_header seq (offset_of st) ++ payload
    → packets st'.mbufs (waiting st') ≡ packets f.mbufs (waiting f.st)
    → offset_of st' ≡ offset_of f.st
    → SentPacked c st seq (some datagram) st'
SentPacked-frame c {st} {seq} q same sent kept left =
    let e = Packs-pack q.packs ∙ ap (pack (c.tfsmtu - 8)) same in
    record {
      frame = ap some (
          sent
          ∙ ap (λ l. frame_header seq (offset_of st) ++ l)
              (q.same_payload ∙ ap (λ (r : Packed). r.payload) e));
      rest = kept ∙ q.rest ∙ ap (λ (r : Packed). r.rest) e;
      offset = left ∙ q.offset ∙ ap (λ (r : Packed). ahead r.part r.rest) e;
    }

-- The state after a call: valid, with the mbufs that there were, and with a free queue of the same size.
pub record Kept (st st' : Ingress) : Type 0 where
  pub valid : IsValid st'
  pub own :
      (q : ℕ)
      → count q (waiting st') + count q (stack st'.freeq)
        ≡ count q (waiting st) + count q (stack st.freeq)
  pub size : st'.freeq.size ≡ st.freeq.size
