-- ===== src/Ingress.antt =====
-- write_tfs_pkt and write_empty_tfs_pkt of src/iptfs.c: packets from the interface queue are packed
-- into tunnel frames of a fixed size. The counters tcount and ecount, which only feed a log line, and
-- the timer that resets them are left out.
mod Tests
pub mod Stream
pub mod Dense
pub mod Filled
pub mod Rounds
pub mod Fill
pub mod Release
pub mod State
pub mod Empty
pub mod Sent
pub mod Kept
pub mod Write
pub mod Drain
use iptfs.Prelude.{
  ℕ, zero, suc, ◌+◌, ◌-◌, ◌%◌, Bool, true, false, not, ◌&&◌, List, [], ◌∷◌, ◌++◌, length, take,
  replicate, Option, none, some, ltb, leb, ◌==◌, if◌then◌else◌, u16, u32, Outcome, ok, stop, exited,
  overrun, starved, guard, ◌>>=◌, ◌>>◌,
}
use iptfs.Bytes.{put32, put16}
use iptfs.Iovec.{Address, hdr, padding, in_mbuf, Iovec, iovlen, gather}
use iptfs.Mbuf.{Mbuf, Memory, store, mbuf_len}
use iptfs.Mqueue.{Mqueue, mqueue_trypop, mqueue_push}

-- MAXBUF and HDRSPACE of src/iptfs.h
abbrev pub maxbuf : ℕ
maxbuf = 9216

abbrev pub hdrspace : ℕ
hdrspace = 24

-- The globals g_tfsmtu, g_max_inner_pkt, g_dontfrag and g_oneonly.
pub record Config : Type 0 where
  pub tfsmtu : ℕ
  pub max_inner_pkt : ℕ
  pub dontfrag : Bool
  pub oneonly : Bool

-- The buffers and queues that the sending thread works on, and `*leftover`.
pub record Ingress : Type 0 where
  pub mbufs : Memory
  pub inq : Mqueue
  pub freeq : Mqueue
  pub leftover : Option ℕ

-- A frame under construction: `g_wtfs_iovecs` up to `iov`, and `g_wtfs_freem` up to `efreem`.
pub record Frame : Type 0 where
  pub st : Ingress
  pub open st use *
  pub iovs : List Iovec
  pub freem : List ℕ

-- What one round of the packing loop leads to: the end of the loop, or the next round with what is
-- left of the frame and the next mbuf.
pub data Round : Type 0 where
  done : Frame → Round
  more : Frame → ℕ → Option ℕ → Round

module _ (c : Config) where
  -- `(*iov).iov_base = …; (*iov++).iov_len = …`, with the array's end watched.
  unfoldable pub add_iov : Frame → Address → ℕ → Outcome Frame
  add_iov f base len =
      guard (ltb (length f.iovs) c.max_inner_pkt) overrun
      >> ok (record f { iovs = f.iovs ++ record { iov_base = base; iov_len = len } ∷ [] })

  -- `*efreem++ = m`
  unfoldable pub add_free : Frame → ℕ → Outcome Frame
  add_free f m =
      guard (ltb (length f.freem) c.max_inner_pkt) overrun
      >> ok (record f { freem = f.freem ++ m ∷ [] })

  -- "Get next MBUF if we have space"
  unfoldable pub next_mbuf : Ingress → ℕ → Option ℕ × Mqueue
  next_mbuf st mtu =
      if ltb 6 mtu && not c.oneonly
      then mqueue_trypop st.mbufs st.inq (if c.dontfrag then mtu else 0)
      else (none, st.inq)

  -- "No room for dbhdr or no more data -- pad"
  unfoldable pub pad_frame : Frame → ℕ → Outcome Round
  unfolding add_iov
  pad_frame f mtu = add_iov f padding mtu >>= λ f'. ok (done f')

  -- "Room for partial MBUF"
  unfoldable pub add_partial : Frame → ℕ → ℕ → Outcome Round
  unfolding add_iov
  add_partial f mtu m =
      let v = f.mbufs m in
      add_iov f (in_mbuf m v.start) mtu >>= λ f'. ok (
        done (record f' {
          st = record f'.st {
            mbufs = store f'.mbufs m (record v { start = v.start + mtu });
            leftover = some m;
          };
        }))

  -- "Room for full MBUF"
  unfoldable pub add_full : Frame → ℕ → ℕ → Outcome Round
  unfolding add_iov add_free next_mbuf
  add_full f mtu m =
      let v = f.mbufs m in
      let mlen = mbuf_len v in
      add_iov f (in_mbuf m v.start) mlen >>= λ f1. add_free f1 m >>= λ f2.
      let (m', inq') = next_mbuf f2.st (mtu - mlen) in
      ok (more (record f2 { st = record f2.st { inq = inq' } }) (mtu - mlen) m')

  -- The body of the loop, at mtu > 0.
  unfoldable pub fill_round : Frame → ℕ → Option ℕ → Outcome Round
  unfolding pad_frame add_partial add_full
  fill_round f mtu none = pad_frame f mtu
  fill_round f mtu (some m) =
      if leb mtu 6
      then pad_frame f mtu
      else if ltb mtu (mbuf_len (f.mbufs m))
      then add_partial f mtu m
      else add_full f mtu m

  -- `while (mtu > 0)`, on fuel: each round but the last uses up an mbuf.
  unfoldable pub fill_frame : ℕ → Frame → ℕ → Option ℕ → Outcome Frame
  fill_frame zero f mtu m = stop starved
  fill_frame (suc k) f mtu m = elim (mtu == 0) [
    | true ↦ ok f
    | false ↦ elim (fill_round f mtu m) [
      | ok (done f') ↦ ok f'
      | ok (more f' mtu' m') ↦ fill_frame k f' mtu' m'
      | stop e ↦ stop e
    ]
  ]

-- "Pushed used MBUFS onto freeq"
unfoldable pub free_all : Ingress → List ℕ → Outcome Ingress
free_all st [] = ok st
free_all st (m ∷ ms) = elim (mqueue_push st.mbufs st.freeq m true) [
  | ok (_, mbufs', freeq') ↦ free_all (record st { mbufs = mbufs'; freeq = freeq' }) ms
  | stop e ↦ stop e
]

-- The header of a frame: the sequence number, two bytes that stay zero, and the offset of the first
-- packet that starts in it.
unfoldable pub frame_header : ℕ → ℕ → List ℕ
unfolding put32 put16
frame_header seq offset = put16 (put32 (replicate 8 0) 0 seq) 6 (offset % u16)

unfoldable pub write_empty_tfs_pkt : ℕ → ℕ → ℕ × List ℕ
unfolding put32
write_empty_tfs_pkt seq mtu = ((seq + 1) % u32, take mtu (put32 (replicate maxbuf 0) 0 seq))

-- The first mbuf, the offset and the state: what was left over, or the next packet.
unfoldable pub first_mbuf : Ingress → Option ℕ × ℕ × Ingress
first_mbuf st = elim st.leftover [
  | some m ↦ (some m, mbuf_len (st.mbufs m), record st { leftover = none })
  | none ↦ let (m, inq') = mqueue_trypop st.mbufs st.inq 0 in (m, 0, record st { inq = inq' })
]

abbrev pub spaces : Memory → ℕ → List ℕ
spaces mem p = (mem p).space

module _ (c : Config) where
  -- `if (*leftover) *efreem++ = *leftover; *leftover = NULL;`
  unfoldable pub drop_leftover : Frame → Option ℕ → Outcome Frame
  unfolding add_free
  drop_leftover f none = ok f
  drop_leftover f (some m) =
      add_free c f m >>= λ f'. ok (record f' { st = record f'.st { leftover = none } })

  -- `n != g_tfsmtu`, where `none` is a failed call.
  unfoldable pub is_short : Option ℕ → Bool
  is_short none = true
  is_short (some n) = not (n == c.tfsmtu)

-- A parameter: what `sendmsg` returns for a datagram.
module _ (c : Config) (sendmsg : List ℕ → Option ℕ) where
  -- The rest of write_tfs_pkt once the frame is filled: the check of its length, the send and the
  -- release of the used mbufs.
  unfoldable pub send_frame : ℕ → List ℕ → Frame → Outcome (ℕ × Option (List ℕ) × Ingress)
  unfolding drop_leftover is_short free_all iovlen gather
  send_frame seq header f = do
    guard (iovlen f.iovs == c.tfsmtu) exited
    let datagram = gather (spaces f.mbufs) header f.iovs
    f' ← if is_short c (sendmsg datagram) then drop_leftover c f f.leftover else ok f
    st' ← free_all f'.st f'.freem
    ok ((seq + 1) % u32, some datagram, st')

  -- The frame starts with the header in its first iovec.
  abbrev pub new_frame : Ingress → Frame
  new_frame st = record { st = st; iovs = record { iov_base = hdr; iov_len = 8 } ∷ []; freem = [] }

  -- The frame for the mbuf at hand, if there is one.
  unfoldable pub write_first : ℕ → ℕ → Ingress → Option ℕ → Outcome (ℕ × Option (List ℕ) × Ingress)
  unfolding fill_frame send_frame
  write_first seq offset st none =
      if c.oneonly
      then ok (seq, none, st)
      else (let (seq', datagram) = write_empty_tfs_pkt seq c.tfsmtu in ok (seq', some datagram, st))
  write_first seq offset st (some p) =
      fill_frame c (st.inq.depth + 2) (new_frame st) (c.tfsmtu - 8) (some p)
      >>= send_frame seq (frame_header seq offset)

  -- The next sequence number, the datagram that was sent, if any, and the state.
  unfoldable pub write_tfs_pkt : Ingress → ℕ → Outcome (ℕ × Option (List ℕ) × Ingress)
  unfolding first_mbuf write_first
  write_tfs_pkt st seq = let (m, offset, st') = first_mbuf st in write_first seq offset st' m
