-- ===== src/App/Outside.antt =====
-- internal/app: what the services' start asks of code outside, and the address that they show.
use webhook_service.Prelude.{
  ℕ, ◌≡◌, Bool, Option, none, some, [], ◌∷◌, ◌++◌, GoString, lit, if◌then◌else◌, ◌==◌, arith,
}
use webhook_service.Domain.Subscription.{RatePolicy}
use webhook_service.Kafka.Webhook.{Client}
use webhook_service.Kafka.Delivery.{RateLimitDecision}
use webhook_service.Kafka.Handler.Options.{RetryPolicy}
use webhook_service.App.Readiness.{Dependencies, Limiter}
use webhook_service.App.Resources.{Handles}

-- `parses_url` is whether `pgxpool.ParseConfig` takes the URL of the database, and `new_pool` whether a
-- pool can be made of it. `listen` gives the address of a listener that could be opened. `close_fails`
-- is whether a resource's `Close` or `Shutdown` returns an error; the resource is closed all the same.
-- `begun` is whether the goroutine of the poller or of the cleaner has been scheduled by the time that
-- its `Stop` is called, with these handles open.
-- `policy` is `retry.DefaultPolicy()`, and `limiter` what the limiters of internal/resilience answer.
pub record Outside : Type 0 where
  pub parses_url : GoString → Bool
  pub new_pool : GoString → Bool
  pub listen : GoString → Option GoString
  pub close_fails : ℕ → Handles → Bool
  pub begun : ℕ → Handles → Bool
  pub at_start : Dependencies
  pub client : Client
  pub policy : RetryPolicy
  pub limiter : Limiter → ℕ → GoString → RatePolicy → RateLimitDecision

-- What follows the prefix, if the text has it.
abbrev pub after_prefix : GoString → GoString → Option GoString
after_prefix [] s = some s
after_prefix (a ∷ p) [] = none
after_prefix (a ∷ p) (b ∷ s) = let rest = after_prefix p s in if a == b then rest else none

abbrev or_same : GoString → Option GoString → GoString
or_same s none = s
or_same s (some rest) = lit "127.0.0.1" ++ rest

abbrev colon_to_loopback : GoString → GoString
colon_to_loopback s = elim (after_prefix (lit ":") s) [ none ↦ s | some _ ↦ lit "127.0.0.1" ++ s ]

-- The address in `URL` and `MetricsAddr`.
unfoldable pub loopback_address : GoString → GoString
loopback_address s = colon_to_loopback (or_same s (after_prefix (lit "[::]") s))

-- The address that is shown names a host, whatever address the listener has.
pub loopback_address_lem :
    (s : GoString)
    → (after_prefix (lit ":") (loopback_address s) ≡ none)
      × (after_prefix (lit "[::]") (loopback_address s) ≡ none)
unfolding loopback_address
loopback_address_lem s = ground arith
