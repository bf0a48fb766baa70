-- ===== src/Ingress/Drain.antt =====
-- The loop of write_tfs_pkts (src/iptfs.c), a number of rounds of it: the waiting packets go out.
use native.Mathlib.Nat.{suc-mul}
use iptfs.Prelude.{
  ◌%◌, ◌++◌, sym, replicate, u32, none, ◌>>=◌, Returns-map, ℕ, zero, suc, ◌+◌, ◌-◌, ◌*◌, ◌≤◌, ◌<◌,
  ◌≡◌, ◌⊎◌, inl, inr, refl, ap, ◌∙◌, subst, List, [], ◌∷◌, length, length-drop, Option, some,
  Outcome, ok, Returns, Returns-value, arith,
}
use iptfs.Mbuf.{Memory}
use iptfs.Packing.{Packed, Packs, none_left, no_room, goes_on, fits, pack, pack-Packs}
use iptfs.Ingress.{Config, Ingress, write_tfs_pkt, frame_header}
use iptfs.Ingress.Stream.{packets, stream, offset_of}
use iptfs.Ingress.Dense.{IsDense}
use iptfs.Ingress.State.{waiting, unsent, Fits, IsValid}
use iptfs.Ingress.Sent.{Sent, nothing, frame, SentPacked}
use iptfs.Ingress.Write.{write_tfs_pkt_lem, write_tfs_pkt-pack}

-- `pps_wait(g_pps); seq = write_tfs_pkt(s, outq, freeq, seq, &leftover);` so many times. Waiting for the
-- next interval takes only time. The datagrams that are sent come first in the result.
unfoldable pub write_tfs_pkts :
    Config → (List ℕ → Option ℕ) → ℕ → Ingress → ℕ → Outcome (List (List ℕ) × ℕ × Ingress)
unfolding write_tfs_pkt
write_tfs_pkts c sendmsg zero st seq = ok ([], seq, st)
write_tfs_pkts c sendmsg (suc n) st seq = do
  (seq1, datagram, st1) ← write_tfs_pkt c sendmsg st seq
  (datagrams, seq', st') ← write_tfs_pkts c sendmsg n st1 seq1
  ok (elim datagram [ none ↦ datagrams | some d ↦ d ∷ datagrams ], seq', st')

-- Datagrams of MTU bytes with the numbers from `seq` on carry `bytes`: each has a header, the next of the
-- bytes, and zeros.
pub data Carries (c : Config) : ℕ → List ℕ → List (List ℕ) → Type 0 where
  no_more : {seq : ℕ} → Carries c seq [] []
  carried :
      {seq : ℕ} {bytes rest d : List ℕ} {ds : List (List ℕ)} (offset : ℕ) (sent : List ℕ)
      (zeros : ℕ)
      → d ≡ frame_header seq offset ++ (sent ++ replicate zeros 0)
      → 8 + length sent + zeros ≡ c.tfsmtu
      → bytes ≡ sent ++ rest
      → Carries c ((seq + 1) % u32) rest ds
      → Carries c seq bytes (d ∷ ds)

-- The bytes of all packets.
abbrev pub total_len : List (List ℕ) → ℕ
total_len [] = 0
total_len (p ∷ ps) = length p + total_len ps

-- A payload takes all packets, or all its bytes but six.
total_len-Packs :
    {n : ℕ} {ps : List (List ℕ)} {r : Packed}
    → Packs n ps r
    → (r.rest ≡ []) ⊎ (total_len r.rest + (n - 6) ≤ total_len ps)
total_len-Packs (none_left n) = inl refl
total_len-Packs (no_room n p ps h) = inr (omega arith)
total_len-Packs (goes_on n p ps h more) = inr (omega (arith, length-drop n p))
total_len-Packs (fits n p ps r h whole rest) = elim (total_len-Packs rest) [
  | inl e ↦ inl e
  | inr e ↦ inr (omega arith)
]

-- No packet waits, or the bytes fit into the payloads of `n` frames.
abbrev FitsIn : Config → ℕ → Ingress → Type 0
FitsIn c n st = (unsent st ≡ []) ⊎ (total_len (unsent st) < n * (c.tfsmtu - 14))

-- After a frame the rest fits into one frame less.
FitsIn-sent :
    (c : Config) (n : ℕ) {st : Ingress} {seq : ℕ} {datagram : Option (List ℕ)} {st' : Ingress}
    → FitsIn c (suc n) st
    → SentPacked c st seq datagram st'
    → FitsIn c n st'
FitsIn-sent c n (inl e) s = inl (s.rest ∙ ap (λ l. (pack (c.tfsmtu - 8) l).rest) e)
FitsIn-sent c n {st} {st' = st'} (inr enough) s =
    elim (total_len-Packs (pack-Packs (c.tfsmtu - 8) (unsent st))) [
      | inl e ↦ inl (s.rest ∙ e)
      | inr less ↦ inr (omega (arith, enough, less, ap total_len s.rest, suc-mul n (c.tfsmtu - 14)))
    ]

map_nil : (mem : Memory) (s : List ℕ) → packets mem s ≡ [] → s ≡ []
map_nil mem [] e = refl
map_nil mem (p ∷ ps) e = absurd (omega (arith, ap length e))

module _ {c : Config} {sendmsg : List ℕ → Option ℕ} (fits : Fits c) (dense : IsDense c)
    (all : (d : List ℕ) → sendmsg d ≡ some c.tfsmtu) where
  add_frame :
      {st st' : Ingress} {seq seq' : ℕ} {datagram : Option (List ℕ)} {ds : List (List ℕ)}
      → Sent c sendmsg st seq seq' datagram st'
      → Carries c seq' (stream st'.mbufs (waiting st')) ds
      → Carries c seq (stream st.mbufs (waiting st)) (elim datagram [ none ↦ ds | some d ↦ d ∷ ds ])
  add_frame (nothing one empty) r = absurd cc
  add_frame {st} {st'} {seq} {datagram = some d} {ds} (frame sent zeros number layout size all_sent)
        r =
      carried (offset_of st) sent zeros layout size (all_sent (all d))
        (subst (λ s. Carries c s (stream st'.mbufs (waiting st')) ds) number r)

  rounds_lem :
      (n : ℕ) {st : Ingress} (seq : ℕ)
      → IsValid st
      → FitsIn c n st
      → Returns
          (λ (datagrams, seq', st').
            Carries c seq (stream st.mbufs (waiting st)) datagrams
            × IsValid st'
            × (unsent st' ≡ []))
          (write_tfs_pkts c sendmsg n st seq)
  unfolding write_tfs_pkts
  rounds_lem zero {st} seq v (inl e) = (
    subst (λ s. Carries c seq (stream st.mbufs s) []) (sym (map_nil st.mbufs (waiting st) e))
        no_more,
    v,
    e,
  )
  rounds_lem zero seq v (inr enough) = absurd (omega (arith, enough))
  rounds_lem (suc n) {st} seq v enough =
      let ((seq', datagram, st'), sent, k) =
        Returns-value (write_tfs_pkt c sendmsg st seq) (write_tfs_pkt_lem c sendmsg fits seq v) in
      let s : SentPacked c st seq datagram st' =
        subst (Returns (λ (seq', datagram, st'). SentPacked c st seq datagram st')) sent
          (write_tfs_pkt-pack c sendmsg fits seq v dense all) in
      let ((datagrams, seq2, st2), rest, (carries, valid, empty)) =
        Returns-value (write_tfs_pkts c sendmsg n st' seq')
          (rounds_lem n seq' k.0.valid (FitsIn-sent c n enough s)) in
      rw (sent, rest) (add_frame k.1 carries, valid, empty)

  -- For a tunnel MTU that fits the arrays, a valid state of the sending thread, frames that may
  -- split packets and hold several, and a sendmsg that sends all it is given, if the waiting
  -- packets have fewer bytes than n frames of MTU - 14 bytes, then n rounds of the loop of
  -- write_tfs_pkts send them all: the datagrams have MTU bytes each, the numbers from `seq` on, and
  -- behind the headers just the bytes that waited, in order, then zeros in each; and the state is
  -- valid and nothing waits.
  pub write_tfs_pkts-drains :
      (n : ℕ) {st : Ingress} (seq : ℕ)
      → IsValid st
      → total_len (packets st.mbufs (waiting st)) < n * (c.tfsmtu - 14)
      → Returns
          (λ (datagrams, seq', st').
            Carries c seq (stream st.mbufs (waiting st)) datagrams
            × IsValid st'
            × (waiting st' ≡ []))
          (write_tfs_pkts c sendmsg n st seq)
  write_tfs_pkts-drains n {st} seq v enough =
      Returns-map (write_tfs_pkts c sendmsg n st seq)
        (λ (datagrams, seq', st') (carries, v', e).
          (carries, v', map_nil st'.mbufs (waiting st') e))
        (rounds_lem n seq v (inr enough))
