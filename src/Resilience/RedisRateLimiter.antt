-- ===== src/Resilience/RedisRateLimiter.antt =====
-- internal/resilience/redis_ratelimiter.go: the sliding window on a sorted set of Redis. The server is
-- outside: `SortedSets` are the commands that the script uses, with what they are documented to do.
pub mod Calls
pub mod Held
pub mod Window
pub mod Collision
use webhook_service.Prelude.{
  ℕ, suc, ◌%◌, ◌^◌, ◌≡◌, Bool, true, false, not, ◌&&◌, Option, none, some, List, [], ◌∷◌, length,
  select, exists, if◌then◌else◌, ◌==◌,
}
use webhook_service.Prelude.Int.{ℤ, pos, ◌-ℤ◌, ltb_ℤ, leb_ℤ, div_trunc}
use webhook_service.Domain.Event.{Duration}
use webhook_service.Domain.Subscription.{RatePolicy, default_subscription_max_delivery_rate}
use webhook_service.Kafka.Delivery.{RateLimitDecision}

-- `fmt.Sprintf("%d:%d", now, counter)`, as the two numbers that it prints.
abbrev pub Member : Type 0
Member = ℕ × ℕ

abbrev pub same_member : Member → Member → Bool
same_member (a, b) (c, d) = (a == c) && (b == d)

abbrev pub Entry : Type 0
Entry = Member × ℕ

-- `ZADD` of a member that the set has gives it the new score.
abbrev pub put : Member → ℕ → List Entry → List Entry
put m score es = (m, score) ∷ select (λ (e : Entry). not (same_member e.0 m)) es

abbrev pub in_range : ℤ → ℤ → Entry → Bool
in_range low high e = leb_ℤ low (pos e.1) && leb_ℤ (pos e.1) high

-- Sorted sets of Redis. `entries` lists the members with their scores, the last one added first.
pub record SortedSets : Type 1 where
  pub Set : Type 0
  pub empty : Set
  pub zremrangebyscore : ℤ → ℤ → Set → Set
  pub zcard : Set → ℕ
  pub zadd : ℕ → Member → Set → Set
  pub pexpire : ℤ → Set → Set
  pub entries : Set → List Entry
  pub entries-empty : entries empty ≡ []
  pub entries-zremrangebyscore :
      (low high : ℤ) (s : Set)
      → entries (zremrangebyscore low high s) ≡ select (λ e. not (in_range low high e)) (entries s)
  pub zcard_entries : (s : Set) → zcard s ≡ length (entries s)
  pub entries-zadd :
      (score : ℕ) (m : Member) (s : Set) → entries (zadd score m s) ≡ put m score (entries s)
  pub entries-pexpire : (window : ℤ) (s : Set) → entries (pexpire window s) ≡ entries s

module _ (R : SortedSets) where
  -- `redisSlidingWindowScript`; Redis runs a script as a whole.
  unfoldable pub sliding_window_script : ℕ → ℤ → ℤ → Member → R.Set → Bool × R.Set
  sliding_window_script now window limit member s =
      let kept = R.zremrangebyscore (pos 0) (pos now -ℤ window) s in
      if ltb_ℤ (pos (R.zcard kept)) limit
      then (true, R.pexpire window (R.zadd now member kept))
      else (false, R.pexpire window kept)

-- `NewRedisRateLimiter`: the window that it keeps.
unfoldable pub new_redis_rate_limiter : Duration → Duration
new_redis_rate_limiter window = if leb_ℤ window (pos 0) then pos 1000000000 else window

abbrev pub effective_limit : RatePolicy → ℤ
effective_limit policy =
    if leb_ℤ policy.requests_per_second (pos 0)
    then default_subscription_max_delivery_rate
    else policy.requests_per_second

-- `atomic.AddUint64`.
abbrev pub next_counter : ℕ → ℕ
next_counter n = suc n % 2 ^ 64

abbrev pub decision_of : Duration → Bool → RateLimitDecision
decision_of window true = record { allowed = true; retry_after = pos 0 }
decision_of window false = record { allowed = false; retry_after = window }

-- What becomes of a call of the script: it may run although its reply is lost.
pub data ScriptCall : Type 0 where
  replied not_run reply_lost : ScriptCall

module _ (R : SortedSets) where
  -- `RedisRateLimiter.Allow` at `now` milliseconds, on the set of the subscription's key: the decision,
  -- the counter and the set.
  unfoldable pub allow :
      (window : Duration) (counter now : ℕ)
      → ScriptCall
      → RatePolicy
      → R.Set
      → RateLimitDecision × ℕ × R.Set
  allow window counter now call policy s =
      let n = next_counter counter in
      let (admitted, s') =
        sliding_window_script R now (div_trunc window 1000000) (effective_limit policy) (now, n)
          s in
      elim call [
        | replied ↦ (decision_of window admitted, n, s')
        | not_run ↦ (decision_of window false, n, s)
        | reply_lost ↦ (decision_of window false, n, s')
      ]
