-- ===== src/Tests/Worker.antt =====
-- Runs of the theorems on the rounds of a delivery.
use webhook_service.Prelude.{◌≡◌, ◌⊎◌, refl, inl, none, some, [], ◌∷◌, GoString, lit}
use webhook_service.Prelude.Int.{pos, ◌+ℤ◌, ◌-ℤ◌, ◌<ℤ◌}
use webhook_service.Domain.Event.{DeliveryAttempt}
use webhook_service.Domain.Delivery.{Delivery, mark_as_retrying}
use webhook_service.Repository.World.{ok, time_now}
use webhook_service.Kafka.Signature.{sign_webhook_payload, signed_message}
use webhook_service.Kafka.Webhook.{
  deliver_webhook, build_request, base_request, signed_request, read_reply, is_permanent_failure,
  is_retryable_failure,
}
use webhook_service.Kafka.Delivery.{
  retry, DeliveryResult, DeliveryHandler, ask_limiter, attempt_of, can_retry, failed_outcome,
  failed_result, success_result, attempt_delivery, deliver_to_subscription,
  subscription_from_delivery, message_from_delivery, result_of, deliver_delivery,
}
use webhook_service.Kafka.Delivery.Report.{Held, Sent, deliver_delivery_lem}
use webhook_service.Kafka.Handler.{apply_delivery_result, next_attempt_time, retry_delay}
use webhook_service.Kafka.Handler.Applied.{Applied, apply_delivery_result_lem}
use webhook_service.Kafka.Handler.Rounds.{allowed, start, retried, Waiting-bounded}
use webhook_service.Tests.Data.{leased_row, with_row, calm, client, handler}

-- Every URL answers 503.
abbrev overloaded : DeliveryHandler
overloaded = record handler {
  client = record client {
    respond = λ tick request. inl (record { status_code = pos 503; first_read = [] });
  };
}

abbrev error_text : GoString
error_text = lit "non-2xx status: 10"

abbrev failed_attempt : DeliveryAttempt
failed_attempt = record {
  id = 0;
  event_id = lit "1";
  delivery_id = lit "1:a";
  subscription_id = lit "a";
  attempt_number = pos 2;
  generation = pos 1;
  status_code = some (pos 503);
  response_body = none;
  error = some error_text;
  duration_ms = pos 0;
  created_at = pos 1000;
}

abbrev failed_try : DeliveryResult
failed_try = record {
  outcome = retry;
  attempts = failed_attempt ∷ [];
  last_error = error_text;
  delivered_at = none;
  retry_after = pos 0;
}

abbrev waiting_row : Delivery
waiting_row = mark_as_retrying (pos 1000) (pos 1060) error_text leased_row

deliver_delivery_example :
    (r : DeliveryResult) × ((deliver_delivery calm overloaded [] leased_row (with_row leased_row)).0
      ≡ ok r)
    × (Held r ⊎ Sent overloaded leased_row r)
    × ((deliver_delivery calm overloaded [] leased_row (with_row leased_row)).1.db
        ≡ (with_row leased_row).db)
deliver_delivery_example = deliver_delivery_lem calm overloaded [] leased_row (with_row leased_row)

apply_delivery_result_example :
    (d' : Delivery) × ((apply_delivery_result calm overloaded leased_row failed_try
        (with_row leased_row)).0
      ≡ ok d')
    × Applied leased_row failed_try d'
    × ((apply_delivery_result calm overloaded leased_row failed_try (with_row leased_row)).1.db
        ≡ (with_row leased_row).db)
apply_delivery_result_example =
    apply_delivery_result_lem calm overloaded leased_row failed_try (with_row leased_row)

Waiting-bounded_example : leased_row.attempts +ℤ pos 1 <ℤ allowed overloaded leased_row
unfolding deliver_delivery apply_delivery_result deliver_to_subscription ask_limiter
    attempt_delivery deliver_webhook build_request base_request signed_request sign_webhook_payload
    signed_message read_reply failed_result success_result failed_outcome can_retry
    is_permanent_failure is_retryable_failure attempt_of message_from_delivery
    subscription_from_delivery result_of mark_as_retrying next_attempt_time retry_delay time_now
    ◌+ℤ◌ ◌-ℤ◌
Waiting-bounded_example = Waiting-bounded overloaded leased_row waiting_row 0 (
    retried {e = leased_row} start (record { same_attempts = refl; same_limit = refl })
      (record {
        env = calm;
        trace = [];
        before = with_row leased_row;
        after = with_row leased_row;
        result = failed_try;
        delivered = refl;
        applied = refl;
      })
      refl)
