-- ===== src/Resilience/RateLimiterManager.antt =====
-- internal/resilience/ratelimiter.go and interfaces.go: one limiter of the process for each
-- subscription. The limiter itself (golang.org/x/time/rate) is outside: `RateLimiters` are its
-- operations. The mutex makes each operation on the map atomic; between two of them other deliveries
-- may run, which the operations on the map take as they find it.
pub mod Isolation
use webhook_service.Prelude.{
  ℕ, ◌≡◌, refl, sym, ap, ◌∙◌, Bool, true, false, not, Option, none, some, List, [], ◌∷◌, GoString,
  str_eq, str_eq_iff, arith, Bool-cases, inl, inr, if◌then◌else◌, Option-cases, is_some, select,
}
use webhook_service.Prelude.Int.{ℤ, pos, leb_ℤ}
use webhook_service.Domain.Event.{Time, Duration}
use webhook_service.Domain.Subscription.{RatePolicy, default_subscription_max_delivery_rate}
use webhook_service.Kafka.Delivery.{RateLimitDecision}

-- `rate.Limiter` of a burst of one, at the moments at which it is asked. `rate_of` is the conversion to
-- `rate.Limit`; `delay` is what `Reserve`, `Delay` and `Cancel` give and leave, or nothing where the
-- reservation is not granted.
pub record RateLimiters : Type 1 where
  pub Rate : Type 0
  pub Limiter : Type 0
  pub rate_of : ℤ → Rate
  pub same_rate : Rate → Rate → Bool
  pub new_limiter : Rate → Limiter
  pub limit : Limiter → Rate
  pub allow : Time → Limiter → Bool × Limiter
  pub delay : Time → Limiter → Option Duration × Limiter
  pub limit-new_limiter : (r : Rate) → limit (new_limiter r) ≡ r
  pub limit-allow : (now : Time) (l : Limiter) → limit (allow now l).1 ≡ limit l
  pub limit-delay : (now : Time) (l : Limiter) → limit (delay now l).1 ≡ limit l
  pub same_rate_eq : (r s : Rate) → same_rate r s ≡ true → r ≡ s

module _ (L : RateLimiters) where
  -- The map `limiters`.
  abbrev pub Limiters : Type 0
  Limiters = List (GoString × L.Limiter)

  unfoldable pub lookup : GoString → Limiters → Option L.Limiter
  lookup id [] = none
  lookup id ((i, l) ∷ m) = let rest = lookup id m in if str_eq i id then some l else rest

  unfoldable pub set : GoString → L.Limiter → Limiters → Limiters
  set id l [] = (id, l) ∷ []
  set id l ((i, k) ∷ m) = let rest = set id l m in if str_eq i id then (i, l) ∷ m else (i, k) ∷ rest

  -- `GetLimiter`, with the rate of the configuration.
  unfoldable pub get_limiter : L.Rate → GoString → Limiters → L.Limiter × Limiters
  unfolding lookup set
  get_limiter config id m = elim (lookup id m) [
    | some l ↦ (l, m)
    | none ↦ (L.new_limiter config, set id (L.new_limiter config) m)
  ]

  -- `SetRateIfChanged`.
  unfoldable pub set_rate_if_changed : GoString → L.Rate → Limiters → Limiters
  unfolding lookup set
  set_rate_if_changed id r m = elim (lookup id m) [
    | some l ↦ if L.same_rate (L.limit l) r then m else set id (L.new_limiter r) m
    | none ↦ set id (L.new_limiter r) m
  ]

  -- `Wait`.
  unfoldable pub wait : L.Rate → Time → GoString → Limiters → Duration × Limiters
  unfolding get_limiter
  wait config now id m =
      let (l, m') = get_limiter config id m in
      let (granted, l') = L.delay now l in
      (elim granted [ none ↦ pos 0 | some d ↦ d ], set id l' m')

  abbrev pub policy_rate : RatePolicy → ℤ
  policy_rate policy =
      if leb_ℤ policy.requests_per_second (pos 0)
      then default_subscription_max_delivery_rate
      else policy.requests_per_second

  -- `AllowWithPolicy`, with the moments of its two questions.
  unfoldable pub allow_with_policy :
      L.Rate → (now later : Time) → GoString → RatePolicy → Limiters → (Bool × Duration) × Limiters
  unfolding get_limiter wait
  allow_with_policy config now later id policy m =
      let (l, m') =
        get_limiter config id (set_rate_if_changed id (L.rate_of (policy_rate policy)) m) in
      let (good, l') = L.allow now l in
      let m'' = set id l' m' in
      let (d, m''') = wait config later id m'' in
      if good then ((true, pos 0), m'') else ((false, d), m''')

  -- `SetRate`, `SetRateIfNotExists` and `Remove`.
  unfoldable pub set_rate : GoString → L.Rate → Limiters → Limiters
  set_rate id r m = set id (L.new_limiter r) m

  unfoldable pub set_rate_if_not_exists : GoString → L.Rate → Limiters → Limiters
  set_rate_if_not_exists id r m = elim (lookup id m) [
    | some _ ↦ m
    | none ↦ set id (L.new_limiter r) m
  ]

  unfoldable pub remove : GoString → Limiters → Limiters
  remove id m = select (λ (e : GoString × L.Limiter). not (str_eq e.0 id)) m

  -- `InMemoryRateLimiterAdapter.Allow`.
  unfoldable pub allow :
      L.Rate → (now later : Time) → GoString → RatePolicy → Limiters → RateLimitDecision × Limiters
  unfolding allow_with_policy
  allow config now later id policy m =
      let ((good, d), m') = allow_with_policy config now later id policy m in
      (record { allowed = good; retry_after = d }, m')

-- `NewFailClosedRateLimiter` and its `Allow`.
unfoldable pub fail_closed : Duration → RateLimitDecision
fail_closed retry_after = record {
  allowed = false;
  retry_after = if leb_ℤ retry_after (pos 0) then pos 1000000000 else retry_after;
}
