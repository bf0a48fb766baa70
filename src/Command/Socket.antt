-- ===== src/Command/Socket.antt =====
-- tfs_connect, tfs_accept and the choice between them in `main` (src/main.c). What the C library and the
-- kernel return is an argument: the list of addresses from getaddrinfo with what the calls say for
-- each, the sender of the first datagram, and the last call of `connect`. The options of the sockets
-- are left out.
pub mod Chosen
use iptfs.Command.{Settings}
use iptfs.Prelude.{
  ℕ, Bool, true, false, List, [], ◌∷◌, ◌++◌, length, take, drop, Option, none, some, ltb,
  if◌then◌else◌, Outcome, ok, stop, exited, overrun, ◌>>=◌, replicate,
}

-- An entry of the list that getaddrinfo returns: what `socket` returns for it, the `ai_addrlen` bytes of
-- the address, and whether `connect` or `bind` to it succeeds.
pub record Candidate : Type 0 where
  pub socket : Option ℕ
  pub addr : List ℕ
  pub works : Bool

-- `s`, the global `peeraddr`, and all sockets that were opened, the last one first.
pub record Opened : Type 0 where
  pub s : ℕ
  pub peeraddr : List ℕ
  pub sockets : List ℕ

-- `sizeof(peeraddr)`, a struct sockaddr_in
abbrev pub sizeof_peeraddr : ℕ
sizeof_peeraddr = 16

-- `memcpy(&peeraddr, rp->ai_addr, rp->ai_addrlen)`
abbrev pub copy_address : List ℕ → List ℕ → List ℕ
copy_address peeraddr addr = addr ++ drop (length addr) peeraddr

-- The loop of tfs_connect over the addresses, and the exit after it.
unfoldable pub connect_first : List ℕ → List ℕ → List Candidate → Outcome Opened
connect_first peeraddr sockets [] = stop exited
connect_first peeraddr sockets (rp ∷ rps) =
    let copied = copy_address peeraddr rp.addr in
    elim rp.socket [
      | none ↦ connect_first peeraddr sockets rps
      | some s ↦
          if ltb sizeof_peeraddr (length rp.addr)
          then connect_first peeraddr (s ∷ sockets) rps
          else if rp.works
          then ok (record { s = s; peeraddr = copied; sockets = s ∷ sockets })
          else connect_first copied (s ∷ sockets) rps
    ]

unfoldable pub tfs_connect : List ℕ → Option (List Candidate) → Outcome Opened
unfolding connect_first
tfs_connect peeraddr none = stop exited
tfs_connect peeraddr (some result) = connect_first peeraddr [] result

-- The loop of tfs_accept over the addresses, and the exit after it.
unfoldable pub bind_first : List ℕ → List ℕ → List Candidate → Outcome Opened
bind_first peeraddr sockets [] = stop exited
bind_first peeraddr sockets (rp ∷ rps) = elim rp.socket [
  | none ↦ bind_first peeraddr sockets rps
  | some s ↦
      if rp.works
      then ok (record { s = s; peeraddr = peeraddr; sockets = s ∷ sockets })
      else bind_first peeraddr (s ∷ sockets) rps
]

-- recvfrom stores what fits of the sender's address, but sets `alen` to all of its length, which
-- `connect` then reads.
unfoldable pub connect_sender : Opened → Option (List ℕ) → Bool → Outcome Opened
connect_sender o none connects = stop exited
connect_sender o (some sender) connects =
    let stored = copy_address o.peeraddr (take sizeof_peeraddr sender) in
    if ltb sizeof_peeraddr (length sender)
    then stop overrun
    else if connects
    then ok (record o { peeraddr = stored })
    else stop exited

unfoldable pub tfs_accept :
    List ℕ → Option (List Candidate) → Option (List ℕ) → Bool → Outcome Opened
unfolding bind_first connect_sender
tfs_accept peeraddr none sender connects = stop exited
tfs_accept peeraddr (some result) sender connects =
    bind_first peeraddr [] result >>= λ o. connect_sender o sender connects

module _ (lookup : List ℕ → Option (List ℕ) → Option (List Candidate)) where
  -- `main`: with a server, its addresses are looked up and connected to, and otherwise those to listen
  -- on are bound. `peeraddr` is zero at first.
  unfoldable pub open_socket : Settings → Option (List ℕ) → Bool → Outcome Opened
  unfolding tfs_connect tfs_accept
  open_socket settings sender connects = elim settings.server [
    | none ↦
        tfs_accept (replicate sizeof_peeraddr 0) (lookup settings.listen settings.sport) sender
          connects
    | some server ↦ tfs_connect (replicate sizeof_peeraddr 0) (lookup server settings.sport)
  ]
