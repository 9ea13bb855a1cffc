-- ===== src/Domain/Subscription.antt =====
-- internal/domain/subscription.go: destinations, their rate policy and their event filters.
pub mod Matching
use webhook_service.Prelude.{
  ℕ, Bool, true, false, ◌&&◌, ◌||◌, Option, List, [], ◌∷◌, GoString, str_eq, leb, length, take,
  ◌==◌, ◌-◌, if◌then◌else◌,
}
use webhook_service.Prelude.Int.{ℤ, pos, leb_ℤ}
use webhook_service.Domain.Event.{Time}

abbrev pub default_subscription_max_delivery_rate : ℤ
default_subscription_max_delivery_rate = pos 100

pub record Subscription : Type 0 where
  pub id : GoString
  pub url : GoString
  pub event_types : List GoString
  pub secret : Option GoString
  pub max_delivery_rate : ℤ
  pub created_at : Time
  pub active : Bool

pub record RatePolicy : Type 0 where
  pub requests_per_second : ℤ

unfoldable pub effective_rate_policy : Subscription → RatePolicy
effective_rate_policy s = record {
  requests_per_second =
      if leb_ℤ s.max_delivery_rate (pos 0)
      then default_subscription_max_delivery_rate
      else s.max_delivery_rate;
}

-- `pattern[len(pattern)-1]`, read where the pattern is not empty.
abbrev last_byte : ℕ → GoString → ℕ
last_byte c [] = c
last_byte c (d ∷ s) = last_byte d s

match_wildcard : GoString → GoString → Bool
match_wildcard [] event_type = length event_type == 0
match_wildcard (c ∷ s) event_type =
    let pattern' : GoString = c ∷ s in
    let prefix : GoString = take (length pattern' - 1) pattern' in
    if last_byte c s == b'*'
    then leb (length prefix) (length event_type) && str_eq (take (length prefix) event_type) prefix
    else str_eq pattern' event_type

-- The loop of `MatchesEventType` over the filters.
matches_any : List GoString → GoString → Bool
unfolding match_wildcard
matches_any [] event_type = false
matches_any (t ∷ ts) event_type =
    let rest = matches_any ts event_type in
    if str_eq t (b'*' ∷ []) || str_eq t event_type
    then true
    else if match_wildcard t event_type
    then true
    else rest

unfoldable pub matches_event_type : Subscription → GoString → Bool
unfolding matches_any
matches_event_type s event_type = matches_any s.event_types event_type
