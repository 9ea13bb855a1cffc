-- ===== src/Tests/Batch.antt =====
-- Runs of the theorems on a whole batch and on its deliveries: one event, one subscription, and a webhook that succeeds.
use webhook_service.Prelude.{refl, [], ◌∷◌, All, str_eq}
use webhook_service.Prelude.Int.{pos, ◌+ℤ◌, ◌-ℤ◌}
use webhook_service.Domain.Delivery.{Delivery, new_delivery, delivery_id, mark_as_delivered}
use webhook_service.Domain.Subscription.{effective_rate_policy, matches_event_type}
use webhook_service.Domain.Projection.{
  project_event, project_loop, project_delivery, finish, join_status, sooner, later,
}
use webhook_service.Repository.World.{transaction, close_transaction, time_now, query, exec}
use webhook_service.Repository.Sorting.{sort_by, insert_by}
use webhook_service.Repository.Reads.{deliveries_of, get_deliveries_by_event_id}
use webhook_service.Repository.Initialize.{
  with_defaults, initialize_event_deliveries, initialize_body, insert_deliveries,
  insert_delivery_row, insert_event_row, event_row,
}
use webhook_service.Repository.Claim.{
  claim_event_deliveries, lease, claim_rows, candidates, due_order, event_due_order, due_at,
  claimable, claim_of, postgres_interval,
}
use webhook_service.Repository.Outcome.{
  fenced, persist_claimed_delivery_outcome, persist_body, update_outcome, with_outcome,
  insert_attempts, insert_attempt_row, normalize_delivery_attempt, normalize_delivery,
  update_event_projection, project_row,
}
use webhook_service.Repository.Subscriptions.{get_by_event_types, match_types, lookup_subs}
use webhook_service.Kafka.Message.{EventMessage}
use webhook_service.Kafka.Signature.{sign_webhook_payload, signed_message}
use webhook_service.Kafka.Webhook.{
  deliver_webhook, build_request, base_request, signed_request, read_reply,
}
use webhook_service.Kafka.Delivery.{
  ask_limiter, attempt_of, failed_result, success_result, attempt_delivery, deliver_to_subscription,
  subscription_from_delivery, message_from_delivery, result_of, deliver_delivery,
}
use webhook_service.Kafka.Handler.{
  Traces, Processed, apply_delivery_result, file, process_delivery, process_deliveries,
  event_from_message, with_max_attempts, event_types, traces_of, initialize_events,
  claim_and_process, message_by_id, categorize, categorize_messages, process_messages,
  process_batch,
}
use webhook_service.Kafka.Handler.Stored.{Stored}
use webhook_service.Kafka.Handler.Batch.{process_batch-Stored}
use webhook_service.Tests.Data.{leased_row, pending_row, empty_world, calm, handler}

abbrev order_message : EventMessage
order_message = record (message_from_delivery pending_row) { attempt = pos 0 }

process_batch-Stored_example :
    All
      (λ (m : EventMessage).
        Stored m.id (process_batch calm handler [] (order_message ∷ []) empty_world).1.db)
      (order_message ∷ [])
unfolding str_eq new_delivery delivery_id mark_as_delivered effective_rate_policy matches_event_type
    project_event project_loop project_delivery finish join_status sooner later transaction
    close_transaction time_now query exec sort_by insert_by deliveries_of get_deliveries_by_event_id
    with_defaults initialize_event_deliveries initialize_body insert_deliveries insert_delivery_row
    insert_event_row event_row claim_event_deliveries lease claim_rows candidates due_order
    event_due_order due_at claimable claim_of postgres_interval fenced
    persist_claimed_delivery_outcome persist_body update_outcome with_outcome insert_attempts
    insert_attempt_row normalize_delivery_attempt normalize_delivery update_event_projection
    project_row get_by_event_types match_types lookup_subs sign_webhook_payload signed_message
    deliver_webhook build_request base_request signed_request read_reply ask_limiter attempt_of
    failed_result success_result attempt_delivery deliver_to_subscription subscription_from_delivery
    message_from_delivery result_of deliver_delivery apply_delivery_result file process_delivery
    process_deliveries event_from_message with_max_attempts event_types traces_of initialize_events
    claim_and_process message_by_id categorize categorize_messages process_messages process_batch
    ◌+ℤ◌ ◌-ℤ◌
process_batch-Stored_example =
    process_batch-Stored calm handler [] (order_message ∷ []) empty_world refl

abbrev traces : Traces
traces = record { by_event = []; context = [] }

abbrev sent_row : Delivery
sent_row = mark_as_delivered (pos 1000) (record leased_row { attempts = pos 2 })

abbrev sent : Processed
sent = record { delivered = sent_row ∷ []; retrying = []; failed = [] }
