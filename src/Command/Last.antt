-- ===== src/Command/Last.antt =====
-- The last option of each kind counts (src/main.c).
use iptfs.Prelude.{
  arith, ltb, if◌then◌else◌, ◌<◌, ◌*◌, ℕ, ◌-◌, ◌≡◌, ◌≢◌, refl, Bool, true, List, [], ◌∷◌, take,
  Option, none, some, ok,
}
use iptfs.Command.{
  Opt, debug, single_only, congest_rate, connect, dont_fragment, dev, listen, help, mtu, port, rate,
  verbose, unknown, other, Settings, extended, kilo, ifnamsiz, set_options,
}

-- An option that does not end the program.
abbrev pub IsHarmless : Opt → Type 0
IsHarmless o = (o ≢ dont_fragment) × (o ≢ help) × (o ≢ unknown)

abbrev pub AllHarmless : List Opt → Type 0
AllHarmless [] = Unit {0}
AllHarmless (o ∷ os) = IsHarmless o × AllHarmless os

-- The value of the last option that sets one.
abbrev pub last {ℓ} : {A : Type ℓ} → (Opt → Option A) → A → List Opt → A
last f default [] = default
last f default (o ∷ os) = last f (elim (f o) [ none ↦ default | some a ↦ a ]) os

-- The number of kilobits as bits, where `n` is the bit pattern of a 32-bit integer: below zero, it is as
-- far below 2 ^ 64.
abbrev pub bits_of : ℕ → ℕ
bits_of n = if ltb n 2147483648 then 1000 * n else 18446744073709551616 - 1000 * (4294967296 - n)

-- The number of bytes, likewise.
abbrev pub bytes_of : ℕ → ℕ
bytes_of n = if ltb n 2147483648 then n else 18446744073709551616 - (4294967296 - n)

kilo_lem : (n : ℕ) → n < 4294967296 → kilo n ≡ bits_of n
kilo_lem n h = ground arith

extended_lem : (n : ℕ) → n < 4294967296 → extended n ≡ bytes_of n
extended_lem n h = ground arith

abbrev pub rate_of : (List ℕ → ℕ) → Opt → Option ℕ
rate_of atoi (rate arg) = some (bits_of (atoi arg))
rate_of atoi o = none

abbrev pub congest_of : (List ℕ → ℕ) → Opt → Option ℕ
congest_of atoi (congest_rate arg) = some (bits_of (atoi arg))
congest_of atoi o = none

abbrev pub mtu_of : (List ℕ → ℕ) → Opt → Option ℕ
mtu_of atoi (mtu arg) = some (bytes_of (atoi arg))
mtu_of atoi o = none

abbrev pub server_of : Opt → Option (Option (List ℕ))
server_of (connect arg) = some (some arg)
server_of o = none

abbrev pub port_of : Opt → Option (Option (List ℕ))
port_of (port arg) = some (some arg)
port_of o = none

abbrev pub dev_of : Opt → Option (List ℕ)
dev_of (dev arg) = some (take (ifnamsiz - 1) arg)
dev_of o = none

abbrev pub listen_of : Opt → Option (List ℕ)
listen_of (listen arg) = some arg
listen_of o = none

abbrev pub oneonly_of : Opt → Option Bool
oneonly_of single_only = some true
oneonly_of o = none

-- The settings that the options `os` make of `s`.
abbrev pub settled : (List ℕ → ℕ) → Settings → List Opt → Settings
settled atoi s os = record {
  listen = last listen_of s.listen os;
  server = last server_of s.server os;
  sport = last port_of s.sport os;
  devname = last dev_of s.devname os;
  congest = last (congest_of atoi) s.congest os;
  txrate = last (rate_of atoi) s.txrate os;
  tfsmtu = last (mtu_of atoi) s.tfsmtu os;
  oneonly = last oneonly_of s.oneonly os;
  verbose = last verbose_of s.verbose os;
  debug = last debug_of s.debug os;
}
  where
    verbose_of : Opt → Option Bool
    verbose_of verbose = some true
    verbose_of debug = some true
    verbose_of o = none

    debug_of : Opt → Option Bool
    debug_of debug = some true
    debug_of o = none

module _ (atoi : List ℕ → ℕ) (int : (arg : List ℕ) → atoi arg < 4294967296) where
  -- For any options without -D, -h and unknown ones, in any order, `main` goes on with settings in
  -- which each value is that of the last option that sets it: the rates are 1000 times the number
  -- that atoi reads, a 32-bit integer, and the MTU is the number itself, where a negative value
  -- wraps around modulo 2 ^ 64, and the name of the device is cut to 15 bytes. A
  -- value that no option sets stays as it was.
  pub set_options-settled :
      (os : List Opt) (s : Settings)
      → AllHarmless os
      → set_options atoi s os ≡ ok (settled atoi s os)
  unfolding set_options
  set_options-settled [] s h = refl
  set_options-settled (debug ∷ os) s (h, hs) = set_options-settled os _ hs
  set_options-settled (single_only ∷ os) s (h, hs) = set_options-settled os _ hs
  set_options-settled (congest_rate arg ∷ os) s (h, hs) =
      rw (kilo_lem (atoi arg) (int arg)) (set_options-settled os _ hs)
  set_options-settled (connect arg ∷ os) s (h, hs) = set_options-settled os _ hs
  set_options-settled (dont_fragment ∷ os) s (h, hs) = absurd (h.0 refl)
  set_options-settled (dev arg ∷ os) s (h, hs) = set_options-settled os _ hs
  set_options-settled (listen arg ∷ os) s (h, hs) = set_options-settled os _ hs
  set_options-settled (help ∷ os) s (h, hs) = absurd (h.1 refl)
  set_options-settled (mtu arg ∷ os) s (h, hs) =
      rw (extended_lem (atoi arg) (int arg)) (set_options-settled os _ hs)
  set_options-settled (port arg ∷ os) s (h, hs) = set_options-settled os _ hs
  set_options-settled (rate arg ∷ os) s (h, hs) =
      rw (kilo_lem (atoi arg) (int arg)) (set_options-settled os _ hs)
  set_options-settled (verbose ∷ os) s (h, hs) = set_options-settled os _ hs
  set_options-settled (unknown ∷ os) s (h, hs) = absurd (h.2 refl)
  set_options-settled (other ∷ os) s (h, hs) = set_options-settled os _ hs
