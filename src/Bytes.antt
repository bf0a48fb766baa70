-- ===== src/Bytes.antt =====
-- put32, put16, get32 and get16 of src/iptfs.c: big-endian fields in a byte buffer. A pointer
-- `&buf[i]` is the buffer and the index `i`.
pub mod Laws
use iptfs.Prelude.{ℕ, ◌+◌, ◌*◌, ◌/◌, ◌%◌, List, get_or, set, u16, u32}

-- `*p = value` at a `uint8_t *` keeps the low byte.
abbrev pub put8 : List ℕ → ℕ → ℕ → List ℕ
put8 buf i value = set buf i (value % 256)

abbrev pub get8 : List ℕ → ℕ → ℕ
get8 buf i = get_or buf i 0

unfoldable pub put32 : List ℕ → ℕ → ℕ → List ℕ
put32 buf i value =
    put8 (put8 (put8 (put8 buf i (value / 16777216)) (i + 1) (value / 65536)) (i + 2) (value / 256))
      (i + 3) value

unfoldable pub put16 : List ℕ → ℕ → ℕ → List ℕ
put16 buf i value = put8 (put8 buf i (value / 256)) (i + 1) value

unfoldable pub get32 : List ℕ → ℕ → ℕ
get32 buf i =
    (get8 buf i * 16777216 + get8 buf (i + 1) * 65536 + get8 buf (i + 2) * 256 + get8 buf (i + 3))
    % u32

unfoldable pub get16 : List ℕ → ℕ → ℕ
get16 buf i = (get8 buf i * 256 + get8 buf (i + 1)) % u16
