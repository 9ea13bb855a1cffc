-- ===== src/Kafka/Handler/Applied.antt =====
-- internal/kafka/handler.go: what the outcome of a delivery makes of its row in memory.
use webhook_service.Prelude.{
  ℕ, ◌≡◌, ◌≢◌, ◌⊎◌, inl, inr, refl, Bool, true, false, is_some, [], ◌∷◌, arith,
}
use webhook_service.Prelude.Int.{ℤ, pos, negsuc, ◌+ℤ◌}
use webhook_service.Domain.Event.{Err}
use webhook_service.Domain.Delivery.{
  Delivery, DeliveryStatus, mark_as_delivered, mark_as_retrying, mark_as_throttled, mark_as_failed,
}
use webhook_service.Domain.Delivery.Lifecycle.{SameTarget}
use webhook_service.Repository.World.{World, Environment, ok, err, time_now}
use webhook_service.Repository.World.Inversion.{Result-cases}
use webhook_service.Kafka.Delivery.{
  DeliveryOutcome, success, throttled_outcome, retry, failure, DeliveryResult, DeliveryHandler,
}
use webhook_service.Kafka.Handler.{apply_delivery_result, next_attempt_time}

-- The status that an outcome leads to.
abbrev pub status_of : DeliveryOutcome → DeliveryStatus
status_of success = DeliveryStatus.delivered
status_of throttled_outcome = DeliveryStatus.throttled
status_of retry = DeliveryStatus.retrying
status_of failure = DeliveryStatus.failed

-- The attempts that an outcome counts: none for a throttled delivery, one for a retry, and one for a
-- final outcome that stands on an attempt.
abbrev pub counted : DeliveryResult → ℕ
counted r = elim r.outcome [
  | throttled_outcome ↦ 0
  | retry ↦ 1
  | _ ↦ elim r.attempts [ [] ↦ 0 | _ ∷ _ ↦ 1 ]
]

-- The outcomes after which the delivery waits for another attempt.
abbrev pub waits : DeliveryOutcome → Bool
waits retry = true
waits throttled_outcome = true
waits success = false
waits failure = false

-- What the outcome leaves alone, and what it sets.
pub record Applied (d : Delivery) (r : DeliveryResult) (d' : Delivery) : Type 0 where
  pub target : SameTarget d d'
  pub same_generation : d'.generation ≡ d.generation
  pub same_owner : d'.processing_owner ≡ d.processing_owner
  pub same_deadline : d'.processing_deadline ≡ d.processing_deadline
  pub led_to : d'.status ≡ status_of r.outcome
  pub attempted : d'.attempts ≡ d.attempts +ℤ pos (counted r)
  pub scheduled : is_some d'.next_attempt_at ≡ waits r.outcome

DeliveryOutcome-cases :
    (o : DeliveryOutcome)
    → (o ≡ success) ⊎ ((o ≡ throttled_outcome) ⊎ ((o ≡ retry) ⊎ (o ≡ failure)))
DeliveryOutcome-cases success = inl refl
DeliveryOutcome-cases throttled_outcome = inr (inl refl)
DeliveryOutcome-cases retry = inr (inr (inl refl))
DeliveryOutcome-cases failure = inr (inr (inr refl))

apply_delivery_result-total :
    (env : Environment) (h : DeliveryHandler) (d : Delivery) (r : DeliveryResult) (w : World)
    {e : Err}
    → (apply_delivery_result env h d r w).0 ≢ err e
unfolding apply_delivery_result next_attempt_time time_now
apply_delivery_result-total env h d r w bad = elim (DeliveryOutcome-cases r.outcome) [
  | inl o ↦ ground (arith, o, bad)
  | inr (inl o) ↦ ground (arith, o, bad)
  | inr (inr (inl o)) ↦ ground (arith, o, bad)
  | inr (inr (inr o)) ↦ ground (arith, o, bad)
]

pub add_zero : (x : ℤ) → x +ℤ pos 0 ≡ x
unfolding ◌+ℤ◌
add_zero (pos n) = ground arith
add_zero (negsuc n) = ground arith

pub apply_delivery_result-Applied :
    (env : Environment) (h : DeliveryHandler) (d : Delivery) (r : DeliveryResult) (w : World)
    {d' : Delivery}
    → (apply_delivery_result env h d r w).0 ≡ ok d'
    → Applied d r d' × ((apply_delivery_result env h d r w).1.db ≡ w.db)
unfolding apply_delivery_result next_attempt_time time_now mark_as_delivered mark_as_retrying
    mark_as_throttled mark_as_failed
apply_delivery_result-Applied env h d r w good = ground (arith, add_zero d.attempts)

-- Applying an outcome always gives a row and touches no table. The row keeps the delivery's target,
-- generation and lease; its status is the outcome's, it has a next attempt exactly where it waits for
-- one, and its attempts grow by those that the outcome counts, so that throttling uses up none.
pub apply_delivery_result_lem :
    (env : Environment) (h : DeliveryHandler) (d : Delivery) (r : DeliveryResult) (w : World)
    → (d' : Delivery) × ((apply_delivery_result env h d r w).0 ≡ ok d')
      × Applied d r d'
      × ((apply_delivery_result env h d r w).1.db ≡ w.db)
unfolding apply_delivery_result next_attempt_time time_now mark_as_delivered mark_as_retrying
    mark_as_throttled mark_as_failed
apply_delivery_result_lem env h d r w = elim (Result-cases (apply_delivery_result env h d r w).0) [
  | inl (d', good) ↦
      let (applied, same) = apply_delivery_result-Applied env h d r w good in
      (d', good, applied, same)
  | inr (e, bad) ↦ absurd (apply_delivery_result-total env h d r w bad)
]
