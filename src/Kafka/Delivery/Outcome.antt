-- ===== src/Kafka/Delivery/Outcome.antt =====
-- Which outcome an attempt has, and that a refusal of the rate limiter is no attempt.
use webhook_service.Prelude.{◌≡◌, ◌↔◌, ◌⊎◌, true, false, Option, none, some, arith, if◌then◌else◌}
use webhook_service.Prelude.Int.{ℤ, pos, ◌+ℤ◌, ◌<ℤ◌, int_eq}
use webhook_service.Kafka.Message.{EventMessage}
use webhook_service.Kafka.Webhook.{is_permanent_failure, is_retryable_failure}
use webhook_service.Kafka.Delivery.{retry, failure, DeliveryHandler, failed_outcome}

-- No status code is both permanent and retryable.
pub permanent_not_retryable :
    (code : ℤ) → is_permanent_failure code ≡ true → is_retryable_failure code ≡ false
unfolding is_permanent_failure is_retryable_failure
permanent_not_retryable code h = ground arith

-- The attempts that the message allows: its own number, or the policy's where that is 0.
abbrev pub attempts_allowed : DeliveryHandler → EventMessage → ℤ
attempts_allowed h event =
    if int_eq event.max_attempts (pos 0) then h.policy_max_attempts else event.max_attempts

-- The code of the reply, if there is one, is retryable.
abbrev pub RetryableCode : Option ℤ → Type 0
RetryableCode none = Unit
RetryableCode (some code) = is_retryable_failure code ≡ true

-- A failed attempt is retried exactly where a further attempt is allowed and the failure was a
-- network error or has a retryable status code; every other failure is final.
pub failed_outcome_iff :
    (h : DeliveryHandler) (event : EventMessage) (code : Option ℤ)
    → ((failed_outcome h event code ≡ retry)
        ↔ ((event.attempt +ℤ pos 1 <ℤ attempts_allowed h event) × RetryableCode code))
      × ((failed_outcome h event code ≡ retry) ⊎ (failed_outcome h event code ≡ failure))
unfolding failed_outcome
failed_outcome_iff h event none = ground arith
failed_outcome_iff h event (some code) = ground (arith, permanent_not_retryable code)
