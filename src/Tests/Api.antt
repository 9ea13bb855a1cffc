-- ===== src/Tests/Api.antt =====
-- Runs of the theorems on the HTTP interface.
use webhook_service.Prelude.{
  GoString, Option, ◌∷◌, refl, ◌≡◌, ◌≢◌, true, none, some, [], lit, arith, str_eq,
}
use webhook_service.Domain.Delivery.{schedule_replay}
use webhook_service.Repository.World.{transaction, close_transaction, query}
use webhook_service.Repository.Replay.{replay_failed_delivery, replay_body}
use webhook_service.Api.Response.{CreateEventRequest}
use webhook_service.Api.Handler.{event_complaint, create_event, message_of, replay_delivery}
use webhook_service.Api.Changes.{serve, post_replay, serve_unchanged}
use webhook_service.Kafka.Message.{EventMessage}
use webhook_service.Prelude.Int.{pos}
use webhook_service.Kafka.Consumer.{collect_batch}
use webhook_service.Kafka.Producer.{publish}
use webhook_service.Kafka.Producer.RoundTrip.{flat, received, Decodes}
use webhook_service.Observability.Metrics.{new_metrics}
use webhook_service.Observability.Middleware.{HttpRequest}
use webhook_service.Api.Edge.{Served, post_event, post_event-received}
use webhook_service.Tests.Data.{pending_row, with_row, calm, empty_world}

abbrev order_request : CreateEventRequest
order_request = record {
  id = lit "1";
  type = lit "order";
  source = lit "shop";
  payload = lit "{ }";
}

-- The delivery is not failed: the answer is 409.
serve_unchanged_example :
    (serve calm (λ _ _. true) (post_replay (lit "1:a")) (with_row pending_row)).1.db
    ≡ (with_row pending_row).db
unfolding serve replay_delivery replay_failed_delivery replay_body transaction close_transaction
    query str_eq schedule_replay
serve_unchanged_example =
    serve_unchanged calm (λ _ _. true) (post_replay (lit "1:a")) (with_row pending_row)
      (omega arith)

abbrev blank : GoString → EventMessage
blank id = record {
  id = id;
  type = lit "order";
  source = lit "shop";
  payload = lit "{}";
  max_attempts = pos 5;
  attempt = pos 0;
  last_error = lit "";
  next_attempt_at = none;
  trace_id = lit "";
}

abbrev by_id : EventMessage → Option GoString
by_id e = some e.id

abbrev from_id : GoString → Option EventMessage
from_id id = some (blank id)

abbrev order_post : HttpRequest
order_post = record {
  method = lit "POST";
  path = lit "/events/";
  pattern = lit "/events/";
  trace = lit "";
}

-- The request brings no trace id, and gets a fresh one.
abbrev order_served : Served
order_served =
    post_event calm by_id (λ ms. true) (lit "ab") order_post (some order_request) new_metrics
      empty_world

-- Compacting, of the one payload of this run.
abbrev compacted : GoString → GoString
compacted payload = lit "{}"

order-Decodes : Decodes by_id (λ ms. true) from_id compacted (message_of order_request)
unfolding message_of
order-Decodes value e = cc e

post_event-received_example :
    (order_served.response_trace ≢ [])
    × (order_served.metrics.events_received ≡ 1)
    × ((collect_batch from_id (received 7 (flat order_served.writes))).events
        ≡ record (message_of order_request) {
          payload = compacted order_request.payload;
          trace_id = order_served.response_trace;
        }
          ∷ [])
unfolding post_event create_event publish event_complaint message_of
post_event-received_example =
    post_event-received calm by_id (λ ms. true) from_id compacted (lit "ab") order_post
      order_request new_metrics empty_world 7 (λ e. cc e) order-Decodes refl
