-- ===== src/Command.antt =====
-- The options of `main` (src/main.c). What getopt_long returns, option after option, is an argument, and
-- so is `atoi`, whose result is the bit pattern of a 32-bit integer. What is printed is left out.
mod Tests
pub mod Last
pub mod Socket
use iptfs.Prelude.{
  ℕ, ◌+◌, ◌-◌, ◌*◌, ◌%◌, ◌^◌, Bool, true, false, List, [], ◌∷◌, take, Option, none, some, ltb,
  if◌then◌else◌, Outcome, ok, stop, exited, faulted, u32,
}

-- What getopt_long returns, with `optarg`. `other` is an option without a case: -u.
pub data Opt : Type 0 where
  debug : Opt
  single_only : Opt
  congest_rate : List ℕ → Opt
  connect : List ℕ → Opt
  dont_fragment : Opt
  dev : List ℕ → Opt
  listen : List ℕ → Opt
  help : Opt
  mtu : List ℕ → Opt
  port : List ℕ → Opt
  rate : List ℕ → Opt
  verbose : Opt
  unknown : Opt
  other : Opt

-- The local variables of `main` and the globals that it sets. Strings are lists of bytes.
pub record Settings : Type 0 where
  pub listen : List ℕ
  pub server : Option (List ℕ)
  pub sport : Option (List ℕ)
  pub devname : List ℕ
  pub congest : ℕ
  pub txrate : ℕ
  pub tfsmtu : ℕ
  pub oneonly : Bool
  pub verbose : Bool
  pub debug : Bool

-- "::" and "vtun%d"
abbrev pub initial : Settings
initial = record {
  listen = 58 ∷ 58 ∷ [];
  server = none;
  sport = none;
  devname = 118 ∷ 116 ∷ 117 ∷ 110 ∷ 37 ∷ 100 ∷ [];
  congest = 0;
  txrate = 0;
  tfsmtu = 1500;
  oneonly = false;
  verbose = false;
  debug = false;
}

abbrev pub ifnamsiz : ℕ
ifnamsiz = 16

-- An `int` as a 64-bit integer.
abbrev pub extended : ℕ → ℕ
extended n = if ltb n (2 ^ 31) then n else n + 2 ^ 64 - u32

-- `(uint64_t)atoi(optarg) * 1000ULL`
abbrev pub kilo : ℕ → ℕ
kilo n = extended n * 1000 % 2 ^ 64

module _ (atoi : List ℕ → ℕ) where
  -- The body of the loop. After -h there is no `optarg` for atoi; -D and an unknown option end the
  -- program.
  unfoldable pub set_option : Settings → Opt → Outcome Settings
  set_option s debug = ok (record s { verbose = true; debug = true })
  set_option s single_only = ok (record s { oneonly = true })
  set_option s (congest_rate arg) = ok (record s { congest = kilo (atoi arg) })
  set_option s (connect arg) = ok (record s { server = some arg })
  set_option s dont_fragment = stop exited
  set_option s (dev arg) = ok (record s { devname = take (ifnamsiz - 1) arg })
  set_option s (listen arg) = ok (record s { listen = arg })
  set_option s help = stop faulted
  set_option s (mtu arg) = ok (record s { tfsmtu = extended (atoi arg) })
  set_option s (port arg) = ok (record s { sport = some arg })
  set_option s (rate arg) = ok (record s { txrate = kilo (atoi arg) })
  set_option s verbose = ok (record s { verbose = true })
  set_option s unknown = stop exited
  set_option s other = ok s

  -- `while ((opt = getopt_long(…)) != -1)`
  unfoldable pub set_options : Settings → List Opt → Outcome Settings
  unfolding set_option
  set_options s [] = ok s
  set_options s (o ∷ os) = elim (set_option s o) [ ok s' ↦ set_options s' os | stop e ↦ stop e ]
