-- ===== src/Command/Tests.antt =====
-- `main` (src/main.c) with a rate, an MTU and another rate, and with a server of two addresses.
use iptfs.Prelude.{
  arith, ◌%◌, ◌≡◌, refl, List, [], ◌∷◌, length, ok, ℕ, take, replicate, true, Option, none, some,
  Returns,
}
use iptfs.Command.Socket.{Candidate, Opened, connect_first, tfs_connect, open_socket}
use iptfs.Command.Socket.Chosen.{open_socket_lem}
use iptfs.Command.{Settings, Opt, rate, mtu, initial, set_options}
use iptfs.Command.Last.{settled, AllHarmless, set_options-settled}

abbrev three_options : List Opt
three_options = rate (1 ∷ []) ∷ mtu (1 ∷ 2 ∷ []) ∷ rate (1 ∷ 2 ∷ 3 ∷ []) ∷ []

-- With the length of the argument for its number.
abbrev number : List ℕ → ℕ
number arg = length arg % 4294967296

last_rate :
    set_options number initial three_options ≡ ok (record initial { txrate = 3000; tfsmtu = 2 })
unfolding set_options
last_rate = refl

harmless : AllHarmless three_options
harmless =
    ((λ e. cc, λ e. cc, λ e. cc), ((λ e. cc, λ e. cc, λ e. cc), ((λ e. cc, λ e. cc, λ e. cc), tt)))

set_options-settled_example :
    set_options number initial three_options ≡ ok (settled number initial three_options)
set_options-settled_example =
    set_options-settled number (λ arg. omega arith) three_options initial harmless

-- An IPv6 address, which does not fit, and an IPv4 one.
abbrev long_address : Candidate
long_address = record { socket = some 3; addr = replicate 28 1; works = true }

abbrev short_address : Candidate
short_address = record { socket = some 4; addr = replicate 16 2; works = true }

abbrev two_addresses : List ℕ → Option (List ℕ) → Option (List Candidate)
two_addresses name port = some (long_address ∷ short_address ∷ [])

abbrev to_server : Settings
to_server = record initial { server = some (97 ∷ []) }

open_socket_lem_example :
    Returns
      (λ (o : Opened). (some 4 ≡ some o.s) × (take 16 o.peeraddr ≡ replicate 16 2))
      (open_socket two_addresses to_server none true)
open_socket_lem_example = open_socket_lem two_addresses to_server none true

-- The socket of the first address stays open.
left_open :
    open_socket two_addresses to_server none true
    ≡ ok (record { s = 4; peeraddr = replicate 16 2; sockets = 4 ∷ 3 ∷ [] })
unfolding open_socket tfs_connect connect_first
left_open = refl
