-- ===== src/Observability/Metrics.antt =====
-- internal/observability/metrics.go: the metrics of a service, without their names and buckets. A counter
-- with a label is the list of the labels of its increments; a histogram is the list of what it has
-- observed, with times in nanoseconds where the code gives seconds; the last comes first.
use webhook_service.Prelude.{ℕ, List, [], GoString}
use webhook_service.Prelude.Int.{ℤ, pos}
use webhook_service.Domain.Event.{Duration, Time}

pub record Metrics : Type 0 where
  pub events_received : ℕ
  pub events_delivered : ℕ
  pub events_failed : ℕ
  pub events_retrying : ℕ
  pub events_throttled : ℕ
  pub delivery_duration : List Duration
  pub delivery_attempts : ℕ
  pub http_requests_total : List (GoString × GoString × ℕ)
  pub http_request_duration : List (GoString × GoString × Duration)
  pub rate_limiter_rejections : List GoString
  pub retry_events_claimed : ℕ
  pub retry_events_reclaimed : ℕ
  pub retry_empty_polls : ℕ
  pub retry_claim_failures : ℕ
  pub retry_persistence_failures : ℕ
  pub retry_stale_owner_rejections : ℕ
  pub retry_active_batches : ℤ
  pub retry_due_events : ℕ
  pub retry_expired_claims : ℕ
  pub retry_leased_events : ℕ
  pub retry_oldest_due_age : Duration
  pub retry_scheduling_lag : List Duration
  pub retention_attempt_bodies_redacted : ℕ
  pub retention_terminal_events_deleted : ℕ
  pub retention_cleanup_failures : ℕ
  pub retention_cleanup_duration : List Duration
  pub retention_last_success : Time

-- The metrics that `NewMetrics` makes.
abbrev pub new_metrics : Metrics
new_metrics = record {
  events_received = 0;
  events_delivered = 0;
  events_failed = 0;
  events_retrying = 0;
  events_throttled = 0;
  delivery_duration = [];
  delivery_attempts = 0;
  http_requests_total = [];
  http_request_duration = [];
  rate_limiter_rejections = [];
  retry_events_claimed = 0;
  retry_events_reclaimed = 0;
  retry_empty_polls = 0;
  retry_claim_failures = 0;
  retry_persistence_failures = 0;
  retry_stale_owner_rejections = 0;
  retry_active_batches = pos 0;
  retry_due_events = 0;
  retry_expired_claims = 0;
  retry_leased_events = 0;
  retry_oldest_due_age = pos 0;
  retry_scheduling_lag = [];
  retention_attempt_bodies_redacted = 0;
  retention_terminal_events_deleted = 0;
  retention_cleanup_failures = 0;
  retention_cleanup_duration = [];
  retention_last_success = pos 0;
}
