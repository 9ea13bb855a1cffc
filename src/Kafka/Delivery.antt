-- ===== src/Kafka/Delivery.antt =====
-- internal/kafka/delivery.go: the delivery of one row to its subscription, and its outcome.
pub mod Outcome
pub mod Attempt
pub mod Report
use webhook_service.Prelude.{
  ℕ, Bool, true, false, ◌&&◌, Option, none, some, List, [], ◌∷◌, ◌++◌, GoString, lit, if◌then◌else◌,
}
use webhook_service.Prelude.Int.{ℤ, pos, ◌+ℤ◌, ◌-ℤ◌, ltb_ℤ, int_eq, div_trunc}
use webhook_service.Domain.Event.{Time, Duration, DeliveryAttempt}
use webhook_service.Domain.Subscription.{Subscription, RatePolicy, effective_rate_policy}
use webhook_service.Domain.Delivery.{Delivery}
use webhook_service.Repository.World.{
  Environment, Observation, throttled, attempt_started, attempt_duration, rate_limited, ok, Action,
  ◌>>=◌, ◌>>◌, pure, advance, time_now,
}
use webhook_service.Kafka.Message.{EventMessage}
use webhook_service.Kafka.Webhook.{
  Client, Reply, deliver_webhook, is_permanent_failure, is_retryable_failure, non_empty,
}

pub data DeliveryOutcome : Type 0 where
  success throttled_outcome retry failure : DeliveryOutcome

pub record DeliveryResult : Type 0 where
  pub outcome : DeliveryOutcome
  pub attempts : List DeliveryAttempt
  pub last_error : GoString
  pub delivered_at : Option Time
  pub retry_after : Duration

-- The outcome of delivering to a single subscription.
pub record SubDeliveryResult : Type 0 where
  pub outcome : DeliveryOutcome
  pub attempt : Option DeliveryAttempt
  pub last_error : GoString
  pub delivered_at : Option Time
  pub retry_after : Duration

-- internal/resilience/interfaces.go: what a rate limiter answers. Its error is only logged.
pub record RateLimitDecision : Type 0 where
  pub allowed : Bool
  pub retry_after : Duration

-- The fields of `DeliveryHandler` that the delivery reads. `delay` is `retryPolicy.CalculateDelay`,
-- whose jitter depends on the moment; a limiter's answer depends on the moment too.
pub record DeliveryHandler : Type 0 where
  pub client : Client
  pub rate_limiter : Option (ℕ → GoString → RatePolicy → RateLimitDecision)
  pub delay : ℕ → ℤ → Duration
  pub policy_max_attempts : ℤ
  pub instance_id : GoString
  pub lease_duration : Duration

abbrev pub observe : Observation → Action (Unit {0})
observe o w = (ok tt, record w { observed = w.observed ++ (o ∷ []) })

-- `rateLimiter.Allow`, where a limiter is set; `none` is a request that may go out.
unfoldable pub ask_limiter : DeliveryHandler → Subscription → Action (Option RateLimitDecision)
ask_limiter h sub w = elim h.rate_limiter [
  | none ↦ (ok none, w)
  | some allow ↦
      let decision = allow w.tick sub.id (effective_rate_policy sub) in
      (ok (if decision.allowed then none else some decision), advance w)
]

unfoldable pub rate_limited_result : RateLimitDecision → SubDeliveryResult
rate_limited_result decision = record {
  outcome = throttled_outcome;
  attempt = none;
  last_error = lit "rate limited";
  delivered_at = none;
  retry_after = decision.retry_after;
}

-- The record of the attempt.
unfoldable pub attempt_of : EventMessage → Reply → Duration → Time → DeliveryAttempt
attempt_of event reply duration now = record {
  id = 0;
  event_id = event.id;
  delivery_id = lit "";
  subscription_id = lit "";
  attempt_number = event.attempt +ℤ pos 1;
  generation = pos 0;
  status_code = reply.status_code;
  response_body = non_empty reply.body;
  error = reply.error;
  duration_ms = div_trunc duration 1000000;
  created_at = now;
}

-- `canRetry`: attempts remain, and the status code, if there is one, is retryable.
unfoldable pub can_retry : DeliveryHandler → EventMessage → Option ℤ → Bool
can_retry h event status_code =
    let max_attempts =
      if int_eq event.max_attempts (pos 0) then h.policy_max_attempts else event.max_attempts in
    ltb_ℤ (event.attempt +ℤ pos 1) max_attempts
    && elim status_code [ none ↦ true | some code ↦ is_retryable_failure code ]

-- `statusCode != nil && isPermanentFailure(*statusCode)`.
abbrev permanent : Option ℤ → Bool
permanent none = false
permanent (some code) = is_permanent_failure code

-- The outcome of an attempt that ended in an error.
unfoldable pub failed_outcome : DeliveryHandler → EventMessage → Option ℤ → DeliveryOutcome
unfolding can_retry
failed_outcome h event status_code =
    if permanent status_code
    then failure
    else if can_retry h event status_code
    then retry
    else failure

unfoldable pub failed_result :
    DeliveryHandler → EventMessage → Option ℤ → DeliveryAttempt → GoString → SubDeliveryResult
unfolding failed_outcome
failed_result h event status_code attempt text = record {
  outcome = failed_outcome h event status_code;
  attempt = some attempt;
  last_error = text;
  delivered_at = none;
  retry_after = pos 0;
}

unfoldable pub success_result : Time → DeliveryAttempt → SubDeliveryResult
success_result now attempt = record {
  outcome = success;
  attempt = some attempt;
  last_error = lit "";
  delivered_at = some now;
  retry_after = pos 0;
}

-- The attempt itself, from the limiter's consent on.
unfoldable pub attempt_delivery :
    Environment
    → DeliveryHandler
    → GoString
    → EventMessage
    → Subscription
    → Action SubDeliveryResult
attempt_delivery env h trace event sub = do
  observe attempt_started
  start ← time_now env
  reply ← deliver_webhook env h.client trace sub event
  end ← time_now env
  let duration = end -ℤ start
  observe (attempt_duration duration)
  created ← time_now env
  let attempt = attempt_of event reply duration created
  elim reply.error [
    | some text ↦ pure (failed_result h event reply.status_code attempt text)
    | none ↦ do now ← time_now env; pure (success_result now attempt)
  ]

unfoldable pub deliver_to_subscription :
    Environment
    → DeliveryHandler
    → GoString
    → EventMessage
    → Subscription
    → Action SubDeliveryResult
deliver_to_subscription env h trace event sub = do
  refused ← ask_limiter h sub
  elim refused [
    | some decision ↦ do
      observe throttled
      observe (rate_limited sub.id)
      pure (rate_limited_result decision)
    | none ↦ attempt_delivery env h trace event sub
  ]

unfoldable pub subscription_from_delivery : Delivery → Subscription
subscription_from_delivery d = record {
  id = d.subscription_id;
  url = d.subscription_url;
  event_types = d.event_type ∷ [];
  secret = d.subscription_secret;
  max_delivery_rate = d.max_delivery_rate;
  created_at = pos 0;
  active = true;
}

unfoldable pub message_from_delivery : Delivery → EventMessage
message_from_delivery d = record {
  id = d.event_id;
  type = d.event_type;
  source = d.source;
  payload = d.payload;
  max_attempts = d.max_attempts;
  attempt = d.attempts;
  last_error = lit "";
  next_attempt_at = none;
  trace_id = lit "";
}

-- The attempt gets the ids and the generation of the delivery.
unfoldable pub result_of : Delivery → SubDeliveryResult → DeliveryResult
result_of d r = elim r.attempt [
  | none ↦ record {
    outcome = r.outcome;
    attempts = [];
    last_error = r.last_error;
    delivered_at = none;
    retry_after = r.retry_after;
  }
  | some a ↦ record {
    outcome = r.outcome;
    attempts =
        record a {
          delivery_id = d.id;
          subscription_id = d.subscription_id;
          generation = d.generation;
        }
        ∷ [];
    last_error = r.last_error;
    delivered_at = r.delivered_at;
    retry_after = r.retry_after;
  }
]

unfoldable pub deliver_delivery :
    Environment → DeliveryHandler → GoString → Delivery → Action DeliveryResult
deliver_delivery env h trace d = do
  r ← deliver_to_subscription env h trace (message_from_delivery d) (subscription_from_delivery d)
  pure (result_of d r)
