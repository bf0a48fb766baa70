-- ===== src/Egress.antt =====
-- getiplen and add_to_inner_packet of src/iptfs.c: the payload of a tunnel frame is cut into the
-- packets that it carries. The argument `seq` only feeds log lines.
pub mod Tests
pub mod Aborts
pub mod Progress
pub mod Pieces
pub mod Steps
pub mod Carry
pub mod Moves
pub mod Deliver
pub mod Chain
pub mod Frames
pub mod Unpack
pub mod Frame
pub mod Output
pub mod Setup
pub mod Resync
pub mod Counted
pub mod Rearranged
pub mod Counting
pub mod Returned
use iptfs.Prelude.{
  ℕ, zero, suc, ◌+◌, ◌-◌, ◌/◌, ◌*◌, ◌%◌, Bool, true, false, not, ◌&&◌, List, [], ◌∷◌, Option, none,
  some, ltb, leb, ◌==◌, if◌then◌else◌, u16, ◌||◌, Outcome, ok, stop, exited, aborted, starved,
  guard, ◌>>=◌, ◌>>◌,
}
use iptfs.Bytes.{get8, get16}
use iptfs.Iovec.{Address, hdr, padding, in_mbuf, Iovec}
use iptfs.Mbuf.{Mbuf, Memory, store, mbuf_len}
use iptfs.Mqueue.{Mqueue}
use iptfs.Miov.{Miov, Miovq, Pool, miovq_pop, miovq_push, miov_addmbuf}

-- The buffers and queues that the receiving thread works on.
pub record Egress : Type 0 where
  pub pool : Pool
  pub open pool use *
  pub miovs : ℕ → Miov
  pub iovfreeq : Miovq
  pub outq : Miovq

-- `b & 0xF0`
abbrev pub high_nibble : ℕ → ℕ
high_nibble b = b / 16 * 16

-- `*(uint8_t *)m->iov[0].iov_base`
abbrev pub first_byte : Memory → List Iovec → ℕ
first_byte mem [] = 0
first_byte mem (v ∷ _) = byte_at v.iov_base
  where
    byte_at : Address → ℕ
    byte_at (in_mbuf p off) = get8 (mem p).space off
    byte_at hdr = 0
    byte_at padding = 0

-- The length from an IP header whose first bytes came in an earlier frame.
unfoldable pub getiplen : Memory → Miov → Mbuf → Outcome ℕ
getiplen mem m tbuf =
    let nibble = high_nibble (first_byte mem m.iov) in
    if nibble == 4
    then ok (get16 tbuf.space (tbuf.start + 2 - m.len))
    else if nibble == 6
    then ok (get16 tbuf.space (tbuf.start + 4 - m.len))
    else stop aborted

-- How add_to_inner_packet goes on: it returns a packet in the making (or NULL), or calls itself on
-- the rest of the buffer.
pub data Next : Type 0 where
  returns : Option ℕ → Egress → Next
  recurse : Egress → Next

abbrev pub set_start : Egress → ℕ → ℕ → Egress
set_start st t start = record st {
  pool = record st.pool { mbufs = store st.mbufs t (record (st.mbufs t) { start = start }) };
}

abbrev pub set_left : Egress → ℕ → ℕ → Egress
set_left st m left = record st { miovs = store st.miovs m (record (st.miovs m) { left = left }) }

-- `miov_addmbuf(m, tbuf, start, n); tbuf->start += n;`
unfoldable pub take_piece : Egress → ℕ → ℕ → ℕ → Outcome Egress
unfolding miov_addmbuf
take_piece st t m n =
    let start = (st.mbufs t).start in
    miov_addmbuf st.mbufs (st.miovs m) t start n >>= λ (mbufs', v). ok (
      set_start (record st { pool = record st.pool { mbufs = mbufs' }; miovs = store st.miovs m v })
        t (start + n))

-- "copy A": the packet goes on in the next frame.
unfoldable pub continue_packet : Egress → ℕ → ℕ → ℕ → Outcome Next
unfolding take_piece
continue_packet st t m tlen = do
  st' ← take_piece st t m tlen
  guard (mbuf_len (st'.mbufs t) == 0) aborted
  ok (returns (some m) (set_left st' m ((st'.miovs m).left - tlen)))

-- "copy B": the packet ends in this frame, and is handed on.
unfoldable pub finish_packet : Egress → ℕ → ℕ → Outcome Egress
unfolding take_piece
finish_packet st t m = do
  st' ← take_piece st t m (st.miovs m).left
  let st1 = set_left st' m 0
  (pool', miovs', outq') ← miovq_push st1.pool st1.miovs st1.outq m
  ok (record st1 { pool = pool'; miovs = miovs'; outq = outq' })

-- From "if (m->left > tlen)" on.
unfoldable pub rest_of_packet : Egress → ℕ → ℕ → ℕ → Outcome Next
unfolding continue_packet finish_packet
rest_of_packet st t m tlen =
    if ltb tlen (st.miovs m).left
    then continue_packet st t m tlen
    else (finish_packet st t m >>= λ st'.
        if mbuf_len (st'.mbufs t) == 0 then ok (returns none st') else ok (recurse st'))

-- The length field of the packet that starts at `start`, 0 if it is not all there.
abbrev pub packet_length : List ℕ → ℕ → ℕ → ℕ
packet_length space start tlen =
    let vnib = high_nibble (get8 space start) in
    if vnib == 64
    then (if leb 4 tlen then get16 space (start + 2) else 0)
    else if vnib == 96
    then (if leb 6 tlen then get16 space (start + 4) else 0)
    else 0

-- `m->len == 0`: a new packet starts at the offset.
unfoldable pub start_packet : Egress → ℕ → ℕ → ℕ → ℕ → Outcome Next
unfolding take_piece rest_of_packet
start_packet st t m offset tlen =
    let tbuf = st.mbufs t in
    let st1 = set_start st t (tbuf.start + offset) in
    let tlen1 = tlen - offset in
    let iplen = packet_length tbuf.space (tbuf.start + offset) tlen1 in
    if leb tlen offset
    then ok (returns (some m) (set_start st t tbuf.end))
    else if high_nibble (get8 tbuf.space (tbuf.start + offset)) == 0
    then ok (returns (some m) (set_start st t tbuf.end))
    else if iplen == 0
    then (do
      st' ← take_piece st1 t m tlen1
      guard (mbuf_len (st'.mbufs t) == 0) aborted
      ok (returns (some m) st'))
    else rest_of_packet (set_left st1 m iplen) t m tlen1

-- "if (m->left <= 0) m->left = getiplen(m, tbuf);"
unfoldable pub known_length : Egress → ℕ → ℕ → Outcome Egress
known_length st t m =
    if (st.miovs m).left == 0
    then (getiplen st.mbufs (st.miovs m) (st.mbufs t) >>= λ n. ok (set_left st m n))
    else ok st

-- `offset > tlen`: the next packet starts in a later frame.
unfoldable pub spanning_packet : Egress → ℕ → ℕ → ℕ → Outcome Next
unfolding known_length continue_packet finish_packet
spanning_packet st t m tlen = do
  st' ← known_length st t m
  if ltb tlen (st'.miovs m).left
      then continue_packet st' t m tlen
      else (finish_packet st' t m >>= λ st1. ok (returns none (set_start st1 t (st1.mbufs t).end)))

-- The packet in the making ends where the next one starts.
unfoldable pub continued_packet : Egress → ℕ → ℕ → ℕ → Outcome Next
unfolding known_length rest_of_packet
continued_packet st t m offset = do
  st' ← known_length st t m
  guard ((st'.miovs m).left == offset) aborted
  rest_of_packet st' t m offset

-- The three cases, for the payload of `tlen` bytes at `tbuf->start`.
unfoldable pub split_payload : Egress → ℕ → ℕ → ℕ → Outcome Next
unfolding start_packet spanning_packet continued_packet
split_payload st t m offset =
    let tlen = mbuf_len (st.mbufs t) % u16 in
    guard (mbuf_len (st.mbufs t) == tlen) exited
    >> (if (st.miovs m).len == 0
        then start_packet st t m offset tlen
        else if ltb tlen offset
        then spanning_packet st t m tlen
        else continued_packet st t m offset)

-- "Get a new inner packet buf if we have none"
unfoldable pub inner_packet : Egress → Option ℕ → Outcome (ℕ × Egress)
inner_packet st (some m) = ok (m, st)
inner_packet st none = miovq_pop st.iovfreeq >>= λ (m, q). ok (m, record st { iovfreeq = q })

-- One activation of add_to_inner_packet: `new` says that the buffer holds a whole frame.
unfoldable pub add_step : Egress → ℕ → Bool → Option ℕ → Outcome Next
unfolding inner_packet split_payload
add_step st t new m =
    let tbuf = st.mbufs t in
    let ltlen = mbuf_len tbuf in
    let offset = (if new then get16 tbuf.space (tbuf.start + 6) else 0) in
    let st1 = (if new then set_start st t (tbuf.start + 8) else st) in
    guard (not (ltlen == 0)) exited
    >> (guard (not new || ltb 8 ltlen) aborted
        >> (inner_packet st1 m >>= λ (p, st2). split_payload st2 t p offset))

unfoldable pub add_to_inner_packet : ℕ → Egress → ℕ → Bool → Option ℕ → Outcome (Option ℕ × Egress)
add_to_inner_packet zero st t new m = stop starved
add_to_inner_packet (suc k) st t new m = elim (add_step st t new m) [
  | ok (returns m' st') ↦ ok (m', st')
  | ok (recurse st') ↦ add_to_inner_packet k st' t false none
  | stop e ↦ stop e
]
