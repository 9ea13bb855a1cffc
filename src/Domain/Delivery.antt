-- ===== src/Domain/Delivery.antt =====
-- internal/domain/delivery.go: the delivery row of one event and one subscription, and the
-- transitions that the worker and the replay endpoint make. A method that mutates `*Delivery`
-- returns the new record; each reading of `time.Now()` is an argument.
pub mod Lifecycle
pub mod Identity
use webhook_service.Prelude.{
  Bool, true, false, Option, none, some, ◌∷◌, ◌++◌, GoString, if◌then◌else◌,
}
use webhook_service.Prelude.Int.{ℤ, pos, ◌+ℤ◌}
use webhook_service.Domain.Event.{Time, Err, replay_not_eligible, Event}
use webhook_service.Domain.Subscription.{Subscription, effective_rate_policy}

pub data DeliveryStatus : Type 0 where
  pending processing delivered retrying throttled failed : DeliveryStatus

-- `==` on statuses.
abbrev pub status_eq : DeliveryStatus → DeliveryStatus → Bool
status_eq pending pending = true
status_eq processing processing = true
status_eq delivered delivered = true
status_eq retrying retrying = true
status_eq throttled throttled = true
status_eq failed failed = true
status_eq _ _ = false

pub record Delivery : Type 0 where
  pub id : GoString
  pub event_id : GoString
  pub subscription_id : GoString
  pub event_type : GoString
  pub source : GoString
  pub payload : GoString
  pub subscription_url : GoString
  pub subscription_secret : Option GoString
  pub max_delivery_rate : ℤ
  pub status : DeliveryStatus
  pub attempts : ℤ
  pub max_attempts : ℤ
  pub generation : ℤ
  pub next_attempt_at : Option Time
  pub last_error : Option GoString
  pub created_at : Time
  pub updated_at : Time
  pub delivered_at : Option Time
  pub processing_owner : Option GoString
  pub processing_deadline : Option Time

unfoldable pub delivery_id : GoString → GoString → GoString
delivery_id event_id subscription_id = event_id ++ (b':' ∷ subscription_id)

unfoldable pub new_delivery : Time → Event → Subscription → Delivery
new_delivery now event sub = record {
  id = delivery_id event.id sub.id;
  event_id = event.id;
  subscription_id = sub.id;
  event_type = event.type;
  source = event.source;
  payload = event.payload;
  subscription_url = sub.url;
  subscription_secret = sub.secret;
  max_delivery_rate = (effective_rate_policy sub).requests_per_second;
  status = pending;
  attempts = event.attempts;
  max_attempts = event.max_attempts;
  generation = pos 1;
  next_attempt_at = none;
  last_error = none;
  created_at = now;
  updated_at = now;
  delivered_at = none;
  processing_owner = none;
  processing_deadline = none;
}

unfoldable pub mark_as_processing : Time → GoString → Time → Delivery → Delivery
mark_as_processing now owner deadline d = record d {
  status = processing;
  processing_owner = some owner;
  processing_deadline = some deadline;
  updated_at = now;
}

unfoldable pub mark_as_delivered : Time → Delivery → Delivery
mark_as_delivered delivered_at d = record d {
  status = delivered;
  delivered_at = some delivered_at;
  next_attempt_at = none;
  last_error = none;
  updated_at = delivered_at;
}

unfoldable pub mark_as_retrying : Time → Time → GoString → Delivery → Delivery
mark_as_retrying now next_attempt last_error d = record d {
  status = retrying;
  attempts = d.attempts +ℤ pos 1;
  next_attempt_at = some next_attempt;
  last_error = some last_error;
  updated_at = now;
}

unfoldable pub mark_as_throttled : Time → Time → GoString → Delivery → Delivery
mark_as_throttled now next_attempt last_error d = record d {
  status = throttled;
  next_attempt_at = some next_attempt;
  last_error = some last_error;
  updated_at = now;
}

unfoldable pub mark_as_failed : Time → GoString → Delivery → Delivery
mark_as_failed now last_error d = record d {
  status = failed;
  last_error = some last_error;
  next_attempt_at = none;
  updated_at = now;
}

-- The error, if any, and the delivery as the call leaves it.
unfoldable pub schedule_replay : Time → Delivery → Option Err × Delivery
schedule_replay scheduled_at d =
    if status_eq d.status failed
    then (
      none,
      record d {
        generation = d.generation +ℤ pos 1;
        status = retrying;
        attempts = pos 0;
        next_attempt_at = some scheduled_at;
        last_error = none;
        delivered_at = none;
        processing_owner = none;
        processing_deadline = none;
        updated_at = scheduled_at;
      },
    )
    else (some replay_not_eligible, d)
