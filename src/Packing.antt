-- ===== src/Packing.antt =====
-- What a tunnel frame carries, as lists of bytes: a description of the format that write_tfs_pkt
-- writes and add_to_inner_packet reads (src/iptfs.c), apart from their buffers.
pub mod Glue
use iptfs.Prelude.{
  length-drop, append-take-drop, append-nil, append_assoc, ap, ap₂, sym, ◌∙◌, refl, lt→ltb, le→ltb,
  le→leb, gt→leb, ℕ, ◌-◌, ◌/◌, ◌≤◌, ◌<◌, ◌≡◌, ◌≢◌, ◌⊎◌, List, [], ◌∷◌, ◌++◌, length, take, drop,
  replicate, ltb, leb, if◌then◌else◌, Bool-cases, inl, inr, arith, length-take, length-replicate,
  length-append,
}
use iptfs.Bytes.{get8, get16}

-- The payload of a frame, the packets that end in it, the bytes of a packet that goes on in the next
-- frame, and the packets that remain, the first without those bytes.
pub record Packed : Type 0 where
  pub payload : List ℕ
  pub whole : List (List ℕ)
  pub part : List ℕ
  pub rest : List (List ℕ)

-- A payload of `n` bytes out of the waiting packets. In the last six bytes no packet starts.
abbrev pub pack : ℕ → List (List ℕ) → Packed
pack n [] = record { payload = replicate n 0; whole = []; part = []; rest = [] }
pack n (p ∷ ps) =
    let r = pack (n - length p) ps in
    if leb n 6
    then record { payload = replicate n 0; whole = []; part = []; rest = p ∷ ps }
    else if ltb n (length p)
    then record { payload = take n p; whole = []; part = take n p; rest = drop n p ∷ ps }
    else record { payload = p ++ r.payload; whole = p ∷ r.whole; part = r.part; rest = r.rest }

-- An IPv4 packet: the version, a header of at least 20 bytes, and the length in the header.
pub record IsIpv4 (p : List ℕ) : Type 0 where
  pub version : get8 p 0 / 16 ≡ 4
  pub header : 20 ≤ length p
  pub length_field : get16 p 2 ≡ length p

abbrev pub AllIpv4 : List (List ℕ) → Type 0
AllIpv4 [] = Unit {0}
AllIpv4 (p ∷ ps) = IsIpv4 p × AllIpv4 ps

-- The bytes that the first packet still has.
abbrev pub first_len : List (List ℕ) → ℕ
first_len [] = 0
first_len (p ∷ ps) = length p

-- The cases of `pack`.
pub data Packs : ℕ → List (List ℕ) → Packed → Type 0 where
  none_left :
      (n : ℕ) → Packs n [] (record { payload = replicate n 0; whole = []; part = []; rest = [] })
  no_room :
      (n : ℕ) (p : List ℕ) (ps : List (List ℕ))
      → n ≤ 6
      → Packs n (p ∷ ps) (record { payload = replicate n 0; whole = []; part = []; rest = p ∷ ps })
  goes_on :
      (n : ℕ) (p : List ℕ) (ps : List (List ℕ))
      → 6 < n
      → n < length p
      → Packs n
          (p ∷ ps)
          (record { payload = take n p; whole = []; part = take n p; rest = drop n p ∷ ps })
  fits :
      (n : ℕ) (p : List ℕ) (ps : List (List ℕ)) (r : Packed)
      → 6 < n
      → length p ≤ n
      → Packs (n - length p) ps r
      → Packs n
          (p ∷ ps)
          (record { payload = p ++ r.payload; whole = p ∷ r.whole; part = r.part; rest = r.rest })

pub pack-Packs : (n : ℕ) (ps : List (List ℕ)) → Packs n ps (pack n ps)
pack-Packs n [] = none_left n
pack-Packs n (p ∷ ps) = elim (Bool-cases (leb n 6)) [
  | inl e ↦ rw e (no_room n p ps (ground arith))
  | inr e ↦ elim (Bool-cases (ltb n (length p))) [
    | inl e' ↦ rw (e, e') (goes_on n p ps (ground arith) (ground arith))
    | inr e' ↦
        rw (e, e')
          (fits n p ps (pack (n - length p) ps) (ground arith) (ground arith)
            (pack-Packs (n - length p) ps))
  ]
]

pub length-payload : {n : ℕ} {ps : List (List ℕ)} {r : Packed} → Packs n ps r → length r.payload ≡ n
length-payload (none_left n) = length-replicate n 0
length-payload (no_room n p ps h) = length-replicate n 0
length-payload (goes_on n p ps h k) = omega (arith, length-take n p)
length-payload (fits n p ps r h k rest) =
    omega (arith, length-append p r.payload, length-payload rest)
