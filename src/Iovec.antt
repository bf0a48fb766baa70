-- ===== src/Iovec.antt =====
-- struct iovec as src/iptfs.c and src/mbuf.c use it, and what `sendmsg` and `writev` gather from an
-- array of them.
pub mod Laws
use iptfs.Prelude.{ℕ, ◌+◌, List, [], ◌∷◌, ◌++◌, take, drop, replicate}

-- Where a piece of a packet lies: in the header `g_wtfs_hdr`, in `padbytes`, or in an mbuf's buffer
-- at an offset.
pub data Address : Type 0 where
  hdr : Address
  padding : Address
  in_mbuf : ℕ → ℕ → Address

pub record Iovec : Type 0 where
  pub iov_base : Address
  pub iov_len : ℕ

-- The sum of the lengths, iovlen of src/iptfs.c.
unfoldable pub iovlen : List Iovec → ℕ
iovlen [] = 0
iovlen (v ∷ iov) = v.iov_len + iovlen iov

abbrev pub slice : ℕ → ℕ → List ℕ → List ℕ
slice off len xs = take len (drop off xs)

-- The bytes at an address. `spaces` gives the buffer of each mbuf; `padbytes` is zero throughout.
abbrev pub bytes_at : (ℕ → List ℕ) → List ℕ → Address → ℕ → List ℕ
bytes_at spaces header hdr len = take len header
bytes_at spaces header padding len = replicate len 0
bytes_at spaces header (in_mbuf p off) len = slice off len (spaces p)

unfoldable pub gather : (ℕ → List ℕ) → List ℕ → List Iovec → List ℕ
gather spaces header [] = []
gather spaces header (v ∷ iov) =
    bytes_at spaces header v.iov_base v.iov_len ++ gather spaces header iov
