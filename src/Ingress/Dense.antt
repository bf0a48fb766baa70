-- ===== src/Ingress/Dense.antt =====
-- What write_tfs_pkt of src/iptfs.c packs, where it may split packets and put several in a frame, against
-- the description of the format.
use native.Mathlib.Nat.{le_refl}
use iptfs.Prelude.{
  ◌-◌, subst, ne→==, length-drop, false, take, drop, length-take, map-ext_on, ℕ, ◌+◌, ◌≤◌, ◌<◌, ◌≡◌,
  ◌⊎◌, inl, inr, refl, ap, ap₂, ◌∙◌, List, [], ◌∷◌, ◌++◌, length, count, append-nil, Option, none,
  some, arith, ==_refl,
}
use iptfs.Iovec.{Iovec, slice}
use iptfs.Mqueue.{Mqueue, mqueue_trypop}
use iptfs.Mbuf.{Memory, store, mbuf_len, mbuf_bytes}
use iptfs.Mqueue.Stack.{IsValid, stack, ptrs, mqueue_trypop_lem}
use iptfs.Ingress.{Config, Frame}
use iptfs.Packing.{fits, Packed, Packs, goes_on}
use iptfs.Packing.Glue.{ahead, ahead-first_len}
use iptfs.Ingress.Stream.{take-mbuf_bytes, packets, offset_of, length-slice}

-- Nothing comes only from an empty queue.
pub trypop_empty :
    (mem : Memory) {mq : Mqueue} → IsValid mq → (mqueue_trypop mem mq 0).0 ≡ none → stack mq ≡ []
trypop_empty mem {mq} v e = elim (mqueue_trypop_lem mem 0 v) [
  | inl (_, _, inl nothing) ↦ nothing
  | inl (_, _, inr (ne, _)) ↦ absurd (ne refl)
  | inr (p, e', _, _, _) ↦ cc
]

pub pop_drained :
    (mem : Memory) {mq : Mqueue} (limit : ℕ)
    → IsValid mq
    → limit ≡ 0
    → (mqueue_trypop mem mq limit).0 ≡ none
    → stack (mqueue_trypop mem mq limit).1 ≡ []
pop_drained mem {mq} limit v z e = elim (mqueue_trypop_lem mem limit v) [
  | inl (_, same, inl nothing) ↦ rw same nothing
  | inl (_, _, inr (ne, _)) ↦ absurd (ne z)
  | inr (p, e', _, _, _) ↦ cc
]

-- Packets may be split over frames, and several may be in one.
abbrev pub IsDense : Config → Type 0
IsDense c = (c.dontfrag ≡ false) × (c.oneonly ≡ false)

-- Where no mbuf is at hand, there is no room or none waits.
abbrev pub Drained : Mqueue → ℕ → Option ℕ → Type 0
Drained mq mtu m = m ≡ none → (mtu ≤ 6) ⊎ (stack mq ≡ [])

pub no_packet :
    (mem : Memory) {mtu : ℕ} {s : List ℕ} → (mtu ≤ 6) ⊎ (s ≡ []) → (mtu ≤ 6) ⊎ (packets mem s ≡ [])
no_packet mem (inl few) = inl few
no_packet mem (inr e) = inr (ap (packets mem) e)

-- What is sent from the packets `ps` on, and what is left, is what `pack` says.
pub record IsPacked (ps : List (List ℕ)) (mtu : ℕ) (payload : List ℕ) (f' : Frame) : Type 0 where
  pub packed : Packed
  pub packs : Packs mtu ps packed
  pub same_payload : payload ≡ packed.payload
  pub rest : packets f'.mbufs (ptrs f'.leftover ++ stack f'.inq) ≡ packed.rest
  pub offset : offset_of f'.st ≡ ahead packed.part packed.rest

-- The first `mtu` bytes of a packet.
pub IsPacked-part :
    (f : Frame) {mtu p : ℕ} {iovs : List Iovec}
    → mtu < mbuf_len (f.mbufs p)
    → 6 < mtu
    → (f.mbufs p).end ≤ length (f.mbufs p).space
    → count p (stack f.inq) ≡ 0
    → IsPacked
        (packets f.mbufs (p ∷ stack f.inq))
        mtu
        (slice (f.mbufs p).start mtu (f.mbufs p).space ++ [])
        (record f {
          st = record f.st {
            mbufs = store f.mbufs p (record (f.mbufs p) { start = (f.mbufs p).start + mtu });
            leftover = some p;
          };
          iovs = iovs;
        })
IsPacked-part f {mtu} {p} {iovs} longer some_room inside alone =
    let v = f.mbufs p in
    let bytes = mbuf_bytes v in
    let others = packets f.mbufs (stack f.inq) in
    let len : length bytes ≡ mbuf_len v = length-slice v (mbuf_len v) inside (le_refl _) in
    let (first, last) = take-mbuf_bytes v mtu inside (omega (arith, longer)) in
    record {
      packed = record {
        payload = take mtu bytes;
        whole = [];
        part = take mtu bytes;
        rest = drop mtu bytes ∷ others;
      };
      packs = goes_on mtu bytes others some_room (omega (arith, len, longer));
      same_payload = append-nil _ ∙ first;
      rest = rw (==_refl p) (
          ap₂ ◌∷◌ last
            (map-ext_on _ _ (stack f.inq) (λ q k. rw (ne→== q p (λ e. ground (arith, alone, e))))));
      offset = rw (==_refl p) (
          omega (
            arith,
            len,
            length-drop mtu bytes,
            ahead-first_len (take mtu bytes) (drop mtu bytes ∷ others) (λ e.
                absurd (omega (arith, length-take mtu bytes, ap length e, some_room, longer, len))),
          ));
    }

-- A whole packet, and then the others.
pub IsPacked-fits :
    (b : List ℕ) {ps ps' : List (List ℕ)} {mtu n : ℕ} {sent payload : List ℕ} {f' : Frame}
    → 6 < mtu
    → length b ≤ mtu
    → n ≡ mtu - length b
    → ps ≡ ps'
    → payload ≡ b ++ sent
    → IsPacked ps n sent f'
    → IsPacked (b ∷ ps') mtu payload f'
IsPacked-fits b {ps} {ps'} {mtu} {n} some_room within len same whole r =
    let p = r.packed in
    record {
      packed = record {
        payload = b ++ p.payload;
        whole = b ∷ p.whole;
        part = p.part;
        rest = p.rest;
      };
      packs =
          fits mtu b ps' p some_room within
            (subst (λ j. Packs j ps' p) len (subst (λ l. Packs n l p) same r.packs));
      same_payload = whole ∙ ap (λ l. b ++ l) r.same_payload;
      rest = r.rest;
      offset = r.offset;
    }
