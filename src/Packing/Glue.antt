-- ===== src/Packing/Glue.antt =====
-- Packets that go on over several frames, as lists of bytes (write_tfs_pkt and add_to_inner_packet of
-- src/iptfs.c): what `pack` does frame after frame.
use iptfs.Prelude.{
  length-drop, append-take-drop, append-nil, append_assoc, ap, ap₂, sym, ◌∙◌, refl, lt→ltb, le→ltb,
  le→leb, gt→leb, ℕ, ◌≤◌, ◌<◌, ◌≡◌, ◌≢◌, ◌⊎◌, List, [], ◌∷◌, ◌++◌, length, take, drop, replicate,
  inl, inr, arith, length-take, length-append,
}
use iptfs.Packing.{Packed, pack, first_len, Packs, none_left, no_room, goes_on, fits}

-- The waiting packets with the first one whole again: `acc` has been sent of it before.
abbrev pub glue : List ℕ → List (List ℕ) → List (List ℕ)
glue acc [] = []
glue acc (p ∷ ps) = (acc ++ p) ∷ ps

-- What has been sent of the first packet that remains.
abbrev pub carried : List ℕ → Packed → List ℕ
carried acc r = elim r.whole [ [] ↦ acc ++ r.part | w ∷ ws ↦ r.part ]

-- The number of bytes before the first packet that starts in a frame.
abbrev pub ahead : List ℕ → List (List ℕ) → ℕ
ahead [] ps = 0
ahead (x ∷ acc) ps = first_len ps

pub glue-nil : (ps : List (List ℕ)) → glue [] ps ≡ ps
glue-nil [] = refl
glue-nil (p ∷ ps) = refl

pub carried-nil : (r : Packed) → carried [] r ≡ r.part
carried-nil r = elim r.whole as (λ l. elim l [ [] ↦ r.part | w ∷ ws ↦ r.part ] ≡ r.part) [
  | [] ↦ refl
  | w ∷ ws ↦ refl
]

pub length-glue : (acc : List ℕ) (ps : List (List ℕ)) → length (glue acc ps) ≡ length ps
length-glue acc [] = refl
length-glue acc (p ∷ ps) = refl

-- The packets that end in a frame and those that remain are the packets there were.
pub glue_lem :
    (acc : List ℕ) {n : ℕ} {ps : List (List ℕ)} {r : Packed}
    → Packs n ps r
    → glue acc ps ≡ glue acc r.whole ++ glue (carried acc r) r.rest
glue_lem acc (none_left n) = refl
glue_lem acc (no_room n p ps h) = ap (λ l. (l ++ p) ∷ ps) (sym (append-nil acc))
glue_lem acc (goes_on n p ps h more) =
    ap (λ l. l ∷ ps)
      (ap (λ l. acc ++ l) (sym (append-take-drop n p))
        ∙ sym (append_assoc acc (take n p) (drop n p)))
glue_lem acc (fits n p ps r h whole rest) =
    ap (λ l. (acc ++ p) ∷ l)
      (sym (glue-nil ps)
        ∙ glue_lem [] rest
        ∙ ap₂ (λ l a. l ++ glue a r.rest) (glue-nil r.whole) (carried-nil r))

-- `pack` is the only way to pack.
pub Packs-pack : {n : ℕ} {ps : List (List ℕ)} {r : Packed} → Packs n ps r → r ≡ pack n ps
Packs-pack (none_left n) = refl
Packs-pack (no_room n p ps h) = rw (le→leb n 6 h) refl
Packs-pack (goes_on n p ps h more) = rw (gt→leb n 6 h, lt→ltb n (length p) more)
Packs-pack (fits n p ps r h whole rest) =
    rw (gt→leb n 6 h, le→ltb n (length p) whole)
      (ap
        (λ (r : Packed). record {
          payload = p ++ r.payload;
          whole = p ∷ r.whole;
          part = r.part;
          rest = r.rest;
        })
        (Packs-pack rest))

-- No packet is put into the frame, for want of packets or of room.
pub Packs-idle :
    (n : ℕ) (ps : List (List ℕ))
    → (n ≤ 6) ⊎ (ps ≡ [])
    → Packs n ps (record { payload = replicate n 0; whole = []; part = []; rest = ps })
Packs-idle n [] h = none_left n
Packs-idle n (p ∷ ps) (inl h) = no_room n p ps h
Packs-idle n (p ∷ ps) (inr h) = cc

-- A packet of which bytes have been sent is ahead of the others.
pub ahead-first_len : (acc : List ℕ) (ps : List (List ℕ)) → acc ≢ [] → ahead acc ps ≡ first_len ps
ahead-first_len [] ps h = absurd (h refl)
ahead-first_len (x ∷ acc) ps h = refl

pub length-whole :
    {n : ℕ} {ps : List (List ℕ)} {r : Packed} → Packs n ps r → length r.whole ≤ length ps
length-whole (none_left n) = omega arith
length-whole (no_room n p ps h) = omega arith
length-whole (goes_on n p ps h k) = omega arith
length-whole (fits n p ps r h k rest) = omega (arith, length-whole rest)

-- A packet that goes on has bytes left.
first_len-part :
    {n : ℕ} {ps : List (List ℕ)} {r : Packed} → Packs n ps r → r.part ≢ [] → first_len r.rest ≢ 0
first_len-part (none_left n) h = absurd (h refl)
first_len-part (no_room n p ps k) h = absurd (h refl)
first_len-part (goes_on n p ps k more) h = omega (arith, length-drop n p)
first_len-part (fits n p ps r k whole rest) h = first_len-part rest h

ahead-nil : (acc : List ℕ) → ahead acc [] ≡ 0
ahead-nil [] = refl
ahead-nil (x ∷ acc) = refl

-- In a frame with room for a packet, the offset of the next frame is the one of the carried bytes, and
-- with such bytes the packet has others left.
pub ahead-carried :
    (acc : List ℕ) {n : ℕ} {ps : List (List ℕ)} {r : Packed}
    → 6 < n
    → Packs n ps r
    → ahead (carried acc r) r.rest ≡ ahead r.part r.rest
ahead-carried acc long (none_left n) = ahead-nil (acc ++ [])
ahead-carried acc long (no_room n p ps k) = absurd (omega arith)
ahead-carried acc long (goes_on n p ps k more) =
    let some_bytes : take n p ≢ [] = λ e. absurd (omega (arith, length-take n p, ap length e)) in
    ahead-first_len (acc ++ take n p) (drop n p ∷ ps)
      (λ e. absurd (omega (arith, length-append acc (take n p), length-take n p, ap length e)))
    ∙ sym (ahead-first_len (take n p) (drop n p ∷ ps) some_bytes)
ahead-carried acc long (fits n p ps r k whole rest) = refl

pub first_len-carried :
    (acc : List ℕ) {n : ℕ} {ps : List (List ℕ)} {r : Packed}
    → 6 < n
    → (acc ≢ [] → first_len ps ≢ 0)
    → Packs n ps r
    → carried acc r ≢ []
    → first_len r.rest ≢ 0
first_len-carried acc long begun (none_left n) h = absurd (begun (λ e. h (append-nil acc ∙ e)) refl)
first_len-carried acc long begun (no_room n p ps k) h = absurd (omega arith)
first_len-carried acc long begun (goes_on n p ps k more) h = omega (arith, length-drop n p)
first_len-carried acc long begun (fits n p ps r k whole rest) h = first_len-part rest h
