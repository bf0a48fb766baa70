-- ===== src/Bytes/Laws.antt =====
-- The laws of the byte accessors of src/iptfs.c.
use iptfs.Prelude.{
  ℕ, ◌+◌, ◌/◌, ◌%◌, ◌≤◌, ◌<◌, ◌≡◌, ◌≢◌, ◌⊎◌, ◌∙◌, List, length, arith, u16, u32, length-set,
  get_or-set_self, get_or-set_ne,
}
use iptfs.Bytes.{put8, get8, put32, put16, get32, get16}

pub get8-put8 : (buf : List ℕ) (i v : ℕ) → i < length buf → get8 (put8 buf i v) i ≡ v % 256
get8-put8 buf i v h = get_or-set_self buf i (v % 256) 0 h

pub get8-put8_ne : (buf : List ℕ) (i j v : ℕ) → i ≢ j → get8 (put8 buf i v) j ≡ get8 buf j
get8-put8_ne buf i j v h = get_or-set_ne buf i j (v % 256) 0 h

pub length-put32 : (buf : List ℕ) (i v : ℕ) → length (put32 buf i v) ≡ length buf
unfolding put32
length-put32 buf i v = simp length-set

pub length-put16 : (buf : List ℕ) (i v : ℕ) → length (put16 buf i v) ≡ length buf
unfolding put16
length-put16 buf i v = simp length-set

-- `put32` leaves the bytes outside its field alone.
pub get8-put32_ne :
    (buf : List ℕ) (i j v : ℕ) → (j < i) ⊎ (i + 4 ≤ j) → get8 (put32 buf i v) j ≡ get8 buf j
unfolding put32
get8-put32_ne buf i j v h =
    get8-put8_ne _ (i + 3) j _ (omega arith)
    ∙ get8-put8_ne _ (i + 2) j _ (omega arith)
    ∙ get8-put8_ne _ (i + 1) j _ (omega arith)
    ∙ get8-put8_ne buf i j _ (omega arith)

pub get8-put16_ne :
    (buf : List ℕ) (i j v : ℕ) → (j < i) ⊎ (i + 2 ≤ j) → get8 (put16 buf i v) j ≡ get8 buf j
unfolding put16
get8-put16_ne buf i j v h =
    get8-put8_ne _ (i + 1) j _ (omega arith) ∙ get8-put8_ne buf i j _ (omega arith)

module _ (buf : List ℕ) (i v : ℕ) where
  -- The four bytes that `put32` writes, most significant first.
  pub put32_bytes :
      i + 4 ≤ length buf
      → (get8 (put32 buf i v) i ≡ v / 16777216 % 256)
        × (get8 (put32 buf i v) (i + 1) ≡ v / 65536 % 256)
        × (get8 (put32 buf i v) (i + 2) ≡ v / 256 % 256)
        × (get8 (put32 buf i v) (i + 3) ≡ v % 256)
  unfolding put32
  put32_bytes h = (
    get8-put8_ne _ (i + 3) i _ (omega arith)
        ∙ get8-put8_ne _ (i + 2) i _ (omega arith)
        ∙ get8-put8_ne _ (i + 1) i _ (omega arith)
        ∙ get8-put8 buf i _ (omega arith),
    get8-put8_ne _ (i + 3) (i + 1) _ (omega arith)
        ∙ get8-put8_ne _ (i + 2) (i + 1) _ (omega arith)
        ∙ get8-put8 _ (i + 1) _ (rw length-set (omega arith)),
    get8-put8_ne _ (i + 3) (i + 2) _ (omega arith)
        ∙ get8-put8 _ (i + 2) _ (simp length-set (omega arith)),
    get8-put8 _ (i + 3) _ (simp length-set (omega arith)),
  )

  -- A 32-bit value written by put32 inside the buffer is what get32 reads back there, and the bytes
  -- before and after the field are unchanged.
  pub get32-put32 :
      i + 4 ≤ length buf
      → v < u32
      → (get32 (put32 buf i v) i ≡ v)
        × ((j : ℕ) → (j < i) ⊎ (i + 4 ≤ j) → get8 (put32 buf i v) j ≡ get8 buf j)
  unfolding get32
  get32-put32 h hv = (omega (arith, put32_bytes h), λ j. get8-put32_ne buf i j v)

  -- A 16-bit value written by put16 inside the buffer is what get16 reads back there, and the bytes
  -- before and after the field are unchanged.
  pub get16-put16 :
      i + 2 ≤ length buf
      → v < u16
      → (get16 (put16 buf i v) i ≡ v)
        × ((j : ℕ) → (j < i) ⊎ (i + 2 ≤ j) → get8 (put16 buf i v) j ≡ get8 buf j)
  unfolding get16 put16
  get16-put16 h hv = (
    omega (
      arith,
      get8-put8_ne (put8 buf i (v / 256)) (i + 1) i v (omega arith)
          ∙ get8-put8 buf i (v / 256) (omega arith),
      get8-put8 (put8 buf i (v / 256)) (i + 1) v (rw length-set (omega arith)),
    ),
    λ j. get8-put16_ne buf i j v,
  )

-- Reading a 32-bit field elsewhere is not disturbed by put32.
pub get32-put32_ne :
    (buf : List ℕ) (i j v : ℕ) → (j + 4 ≤ i) ⊎ (i + 4 ≤ j) → get32 (put32 buf i v) j ≡ get32 buf j
unfolding get32
get32-put32_ne buf i j v h = omega (
  arith,
  get8-put32_ne buf i j v (omega arith),
  get8-put32_ne buf i (j + 1) v (omega arith),
  get8-put32_ne buf i (j + 2) v (omega arith),
  get8-put32_ne buf i (j + 3) v (omega arith),
)
