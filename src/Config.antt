-- ===== src/Config.antt =====
-- internal/config/config.go: the settings of the two services, from the environment.
pub mod Api
pub mod Worker
pub mod Valid
use webhook_service.Prelude.{
  ℕ, ◌*◌, ◌+◌, ◌-◌, ◌%◌, Bool, true, false, ◌||◌, Option, none, some, List, [], ◌∷◌, GoString, ltb,
  ◌==◌, is_empty, if◌then◌else◌,
}
use webhook_service.Prelude.Int.{ℤ, pos, negsuc, ◌-ℤ◌}
use webhook_service.Domain.Event.{Duration}

-- The process's environment, where a variable that is not set reads as empty, and the conversions of
-- the Go library, which are `none` where they fail.
pub record System : Type 0 where
  pub getenv : GoString → GoString
  pub atoi : GoString → Option ℤ
  pub parse_duration : GoString → Option Duration

unfoldable pub env_or_default : System → GoString → GoString → GoString
env_or_default sys key fallback = let v = sys.getenv key in if is_empty v then fallback else v

abbrev extend : ℕ → List GoString → List GoString
extend b [] = (b ∷ []) ∷ []
extend b (part ∷ parts) = (b ∷ part) ∷ parts

-- `strings.Split(s, ",")`.
unfoldable pub split_commas : GoString → List GoString
split_commas [] = [] ∷ []
split_commas (b ∷ s) = let rest = split_commas s in if b == b',' then [] ∷ rest else extend b rest

-- `len(parts) == 0 || parts[0] == ""`, also the test of the brokers in both `Validate`.
abbrev pub no_first : List GoString → Bool
no_first [] = true
no_first (part ∷ parts) = is_empty part

unfoldable pub split_env_or_default : System → GoString → List GoString → List GoString
unfolding split_commas
split_env_or_default sys key fallback =
    let v = sys.getenv key in
    let parts = split_commas v in
    if is_empty v then fallback else if no_first parts then fallback else parts

abbrev or_else : {A : Type 0} → A → Option A → A
or_else fallback none = fallback
or_else fallback (some a) = a

unfoldable pub env_int_or_default : System → GoString → ℤ → ℤ
env_int_or_default sys key fallback =
    let v = sys.getenv key in if is_empty v then fallback else or_else fallback (sys.atoi v)

unfoldable pub env_duration_or_default : System → GoString → Duration → Duration
env_duration_or_default sys key fallback =
    let v = sys.getenv key in
    if is_empty v then fallback else or_else fallback (sys.parse_duration v)

abbrev from_low_bits : ℕ → ℤ
from_low_bits m = if ltb m 2147483648 then pos m else pos m -ℤ pos 4294967296

-- The conversion `int32(n)` keeps the low 32 bits.
unfoldable pub int32 : ℤ → ℤ
int32 (pos n) = from_low_bits (n % 4294967296)
int32 (negsuc n) = from_low_bits (4294967295 - n % 4294967296)

-- A duration of so many seconds.
abbrev pub seconds : ℕ → Duration
seconds n = pos (n * 1000000000)

-- The first of the complaints that applies.
abbrev pub first_complaint : List (Bool × GoString) → Option GoString
first_complaint [] = none
first_complaint ((applies, text) ∷ rest) =
    let later = first_complaint rest in if applies then some text else later
