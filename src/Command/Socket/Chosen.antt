-- ===== src/Command/Socket/Chosen.antt =====
-- Which address and which socket `main` settles on (src/main.c), in tfs_connect and tfs_accept.
use iptfs.Command.{Settings}
use iptfs.Command.Socket.{
  Candidate, Opened, sizeof_peeraddr, copy_address, connect_first, tfs_connect, bind_first,
  connect_sender, tfs_accept, open_socket,
}
use iptfs.Prelude.{
  ℕ, ◌≡◌, Bool, true, false, List, [], ◌∷◌, ◌++◌, length, take, drop, Option, none, some, ltb,
  if◌then◌else◌, Outcome, ok, stop, exited, overrun, ◌>>=◌, replicate, ◌≤◌, refl, ap, ◌&&◌,
  Bool-cases, inl, inr, take_all, leb, Option-cases, gt→leb, le→leb, ltb→lt, ltb→le, Returns,
}

-- The first address that passes a test.
abbrev pub first : (Candidate → Bool) → List Candidate → Option Candidate
first test [] = none
first test (rp ∷ rps) = if test rp then some rp else first test rps

abbrev has_socket : Candidate → Bool
has_socket rp = elim rp.socket [ none ↦ false | some s ↦ true ]

-- An address that tfs_connect takes.
abbrev pub connectable : Candidate → Bool
connectable rp = has_socket rp && (leb (length rp.addr) sizeof_peeraddr && rp.works)

-- An address that tfs_accept takes.
abbrev pub bindable : Candidate → Bool
bindable rp = has_socket rp && rp.works

-- What tfs_connect makes of the first address that it takes, if any.
abbrev pub Connected : Option Candidate → Outcome Opened → Type 0
Connected none o = o ≡ stop exited
Connected (some rp) o =
    Returns
      (λ (opened : Opened).
        (rp.socket ≡ some opened.s) × (take (length rp.addr) opened.peeraddr ≡ rp.addr))
      o

take-copy : (addr rest : List ℕ) → take (length addr) (addr ++ rest) ≡ addr
take-copy [] rest = refl
take-copy (x ∷ addr) rest = ap (λ l. x ∷ l) (take-copy addr rest)

connect_first-Connected :
    (peeraddr sockets : List ℕ) (rps : List Candidate)
    → Connected (first connectable rps) (connect_first peeraddr sockets rps)
unfolding connect_first
connect_first-Connected peeraddr sockets [] = refl
connect_first-Connected peeraddr sockets (rp ∷ rps) = elim (Option-cases rp.socket) [
  | inl e ↦ rw (connect_first, e) (connect_first-Connected peeraddr sockets rps)
  | inr (s, e) ↦
      (let copied = copy_address peeraddr rp.addr in
        elim (Bool-cases (ltb sizeof_peeraddr (length rp.addr))) [
          | inl long ↦
              rw
                (
                  connect_first,
                  e,
                  long,
                  gt→leb (length rp.addr) sizeof_peeraddr
                      (ltb→lt sizeof_peeraddr (length rp.addr) long),
                )
                (connect_first-Connected peeraddr (s ∷ sockets) rps)
          | inr fits ↦ elim (Bool-cases rp.works) [
            | inl works ↦
                rw
                  (
                    connect_first,
                    e,
                    fits,
                    le→leb (length rp.addr) sizeof_peeraddr
                        (ltb→le sizeof_peeraddr (length rp.addr) fits),
                    works,
                  )
                  (refl, take-copy rp.addr (drop (length rp.addr) peeraddr))
            | inr refused ↦
                rw
                  (
                    connect_first,
                    e,
                    fits,
                    le→leb (length rp.addr) sizeof_peeraddr
                        (ltb→le sizeof_peeraddr (length rp.addr) fits),
                    refused,
                  )
                  (connect_first-Connected copied (s ∷ sockets) rps)
          ]
        ])
]

-- What the loop of tfs_accept makes of the first address that it takes, if any.
abbrev Bound : Option Candidate → Outcome Opened → Type 0
Bound none o = o ≡ stop exited
Bound (some rp) o = Returns (λ (opened : Opened). rp.socket ≡ some opened.s) o

bind_first-Bound :
    (peeraddr sockets : List ℕ) (rps : List Candidate)
    → Bound (first bindable rps) (bind_first peeraddr sockets rps)
unfolding bind_first
bind_first-Bound peeraddr sockets [] = refl
bind_first-Bound peeraddr sockets (rp ∷ rps) = elim (Option-cases rp.socket) [
  | inl e ↦ rw (bind_first, e) (bind_first-Bound peeraddr sockets rps)
  | inr (s, e) ↦ elim (Bool-cases rp.works) [
    | inl works ↦ rw (bind_first, e, works) refl
    | inr refused ↦ rw (bind_first, e, refused) (bind_first-Bound peeraddr (s ∷ sockets) rps)
  ]
]

-- What tfs_accept makes of the first address that it takes, if any, and the sender of the first datagram.
abbrev pub Accepted : Option Candidate → Option (List ℕ) → Bool → Outcome Opened → Type 0
Accepted none sender connects o = o ≡ stop exited
Accepted (some rp) none connects o = o ≡ stop exited
Accepted (some rp) (some sender) connects o =
    if ltb sizeof_peeraddr (length sender)
    then o ≡ stop overrun
    else if connects
    then Returns
        (λ (opened : Opened).
          (rp.socket ≡ some opened.s) × (take (length sender) opened.peeraddr ≡ sender))
        o
    else o ≡ stop exited

connect_sender-Accepted :
    (rp : Candidate) (o : Opened) (sender : Option (List ℕ)) (connects : Bool)
    → rp.socket ≡ some o.s
    → Accepted (some rp) sender connects (connect_sender o sender connects)
unfolding connect_sender
connect_sender-Accepted rp o none connects e = refl
connect_sender-Accepted rp o (some sender) connects e =
    elim (Bool-cases (ltb sizeof_peeraddr (length sender))) [
      | inl long ↦ rw long refl
      | inr fits ↦ rw fits (reaches connects (ltb→le sizeof_peeraddr (length sender) fits))
    ]
  where
    stored : List ℕ
    stored = copy_address o.peeraddr (take sizeof_peeraddr sender)

    reaches :
        (b : Bool)
        → length sender ≤ sizeof_peeraddr
        → (if b
            then Returns
                (λ (opened : Opened).
                  (rp.socket ≡ some opened.s) × (take (length sender) opened.peeraddr ≡ sender))
                (if b then ok (record o { peeraddr = stored }) else stop exited)
            else (if b then ok (record o { peeraddr = stored }) else stop exited) ≡ stop exited)
    reaches true fits = (
      e,
      rw (take_all sender sizeof_peeraddr fits)
          (take-copy sender (drop (length sender) o.peeraddr)),
    )
    reaches false fits = refl

Bound-Accepted :
    (c : Option Candidate) (o : Outcome Opened) (sender : Option (List ℕ)) (connects : Bool)
    → Bound c o
    → Accepted c sender connects (o >>= λ opened. connect_sender opened sender connects)
Bound-Accepted none o sender connects e = rw e refl
Bound-Accepted (some rp) (ok opened) sender connects h =
    connect_sender-Accepted rp opened sender connects h
Bound-Accepted (some rp) (stop e) sender connects h = absurd h

abbrev pub AcceptsOf : Option (List Candidate) → Option (List ℕ) → Bool → Outcome Opened → Type 0
AcceptsOf none sender connects o = o ≡ stop exited
AcceptsOf (some result) sender connects o = Accepted (first bindable result) sender connects o

tfs_accept_lem :
    (peeraddr : List ℕ) (result : Option (List Candidate)) (sender : Option (List ℕ))
    (connects : Bool)
    → AcceptsOf result sender connects (tfs_accept peeraddr result sender connects)
unfolding tfs_accept
tfs_accept_lem peeraddr none sender connects = refl
tfs_accept_lem peeraddr (some result) sender connects =
    Bound-Accepted (first bindable result) (bind_first peeraddr [] result) sender connects
      (bind_first-Bound peeraddr [] result)

abbrev pub ConnectsTo : Option (List Candidate) → Outcome Opened → Type 0
ConnectsTo none o = o ≡ stop exited
ConnectsTo (some result) o = Connected (first connectable result) o

tfs_connect_lem :
    (peeraddr : List ℕ) (result : Option (List Candidate))
    → ConnectsTo result (tfs_connect peeraddr result)
unfolding tfs_connect
tfs_connect_lem peeraddr none = refl
tfs_connect_lem peeraddr (some result) = connect_first-Connected peeraddr [] result

module _ (lookup : List ℕ → Option (List ℕ) → Option (List Candidate)) where
  -- What is to come of it.
  abbrev pub Chosen : Option (List ℕ) → Settings → Option (List ℕ) → Bool → Outcome Opened → Type 0
  Chosen none settings sender connects o =
      AcceptsOf (lookup settings.listen settings.sport) sender connects o
  Chosen (some server) settings sender connects o = ConnectsTo (lookup server settings.sport) o

  -- With a server, `main` uses the socket of the first of its addresses that has one, fits
  -- `peeraddr` and connects, with that address in `peeraddr`; without, it binds the first address
  -- that has a socket and can be bound, and connects it to the sender of the first datagram, whose
  -- address is then in `peeraddr`, except that an address of more than the 16 bytes of `peeraddr`
  -- (IPv6) is read past its end. It exits where there is no such address, no datagram, or the last
  -- connect fails.
  pub open_socket_lem :
      (settings : Settings) (sender : Option (List ℕ)) (connects : Bool)
      → Chosen settings.server settings sender connects
          (open_socket lookup settings sender connects)
  unfolding open_socket
  open_socket_lem settings sender connects =
      elim settings.server
        as (λ c. Chosen c settings sender connects (elim c [
          | none ↦
              tfs_accept (replicate sizeof_peeraddr 0) (lookup settings.listen settings.sport)
                sender connects
          | some server ↦ tfs_connect (replicate sizeof_peeraddr 0) (lookup server settings.sport)
        ])) [
          | none ↦
              tfs_accept_lem (replicate sizeof_peeraddr 0) (lookup settings.listen settings.sport)
                sender connects
          | some server ↦
              tfs_connect_lem (replicate sizeof_peeraddr 0) (lookup server settings.sport)
        ]
