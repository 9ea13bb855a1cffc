-- ===== src/App/Observers.antt =====
-- internal/app/worker.go: what the worker's metrics make of what the delivery handler, the retention
-- cleaner and the retry poller report. Of the instant of the last cleanup the code keeps the seconds.
pub mod Told
pub mod Counts
pub mod Deliveries
pub mod Polls
use webhook_service.Prelude.{ℕ, suc, ◌+◌, Bool, true, false, List, [], ◌∷◌}
use webhook_service.Prelude.Int.{◌+ℤ◌}
use webhook_service.Repository.World.{
  World, Observation, attempt_bodies_redacted, terminal_events_deleted, cycle_failed,
  cycle_completed, delivered, failed, retrying, throttled, attempt_started, attempt_duration,
  rate_limited,
}
use webhook_service.Retry.Poller.{
  PollerMetric, claimed, reclaimed, empty_poll, claim_failure, persistence_failure, active_batches,
  scheduling_lag, backlog,
}
use webhook_service.Observability.Metrics.{Metrics, new_metrics}

-- `deliveryMetricsObserver` and `retentionMetricsObserver`.
unfoldable pub record_observation : Observation → Metrics → Metrics
record_observation delivered m = record m { events_delivered = suc m.events_delivered }
record_observation failed m = record m { events_failed = suc m.events_failed }
record_observation retrying m = record m { events_retrying = suc m.events_retrying }
record_observation throttled m = record m { events_throttled = suc m.events_throttled }
record_observation attempt_started m = record m { delivery_attempts = suc m.delivery_attempts }
record_observation (attempt_duration t) m = record m { delivery_duration = t ∷ m.delivery_duration }
record_observation (rate_limited id) m = record m {
  rate_limiter_rejections = id ∷ m.rate_limiter_rejections;
}
record_observation (attempt_bodies_redacted n) m = record m {
  retention_attempt_bodies_redacted = m.retention_attempt_bodies_redacted + n;
}
record_observation (terminal_events_deleted n) m = record m {
  retention_terminal_events_deleted = m.retention_terminal_events_deleted + n;
}
record_observation cycle_failed m = record m {
  retention_cleanup_failures = suc m.retention_cleanup_failures;
}
record_observation (cycle_completed duration at) m = record m {
  retention_cleanup_duration = duration ∷ m.retention_cleanup_duration;
  retention_last_success = at;
}

-- The observations in their order.
unfoldable pub record_all : List Observation → Metrics → Metrics
unfolding record_observation
record_all [] m = m
record_all (o ∷ os) m = record_all os (record_observation o m)

-- The worker's metrics, once all that was observed has been recorded.
abbrev pub metrics_of : World → Metrics
metrics_of w = record_all w.observed new_metrics

abbrev if_stale : Bool → Metrics → Metrics
if_stale true m = record m { retry_stale_owner_rejections = suc m.retry_stale_owner_rejections }
if_stale false m = m

-- The `PollerMetrics` of `startRetryPoller`.
unfoldable pub record_poller_metric : PollerMetric → Metrics → Metrics
record_poller_metric (claimed n) m = record m { retry_events_claimed = m.retry_events_claimed + n }
record_poller_metric (reclaimed n) m = record m {
  retry_events_reclaimed = m.retry_events_reclaimed + n;
}
record_poller_metric empty_poll m = record m { retry_empty_polls = suc m.retry_empty_polls }
record_poller_metric claim_failure m = record m {
  retry_claim_failures = suc m.retry_claim_failures;
}
record_poller_metric (persistence_failure stale) m =
    if_stale stale (record m { retry_persistence_failures = suc m.retry_persistence_failures })
record_poller_metric (active_batches delta) m = record m {
  retry_active_batches = m.retry_active_batches +ℤ delta;
}
record_poller_metric (scheduling_lag t) m = record m {
  retry_scheduling_lag = t ∷ m.retry_scheduling_lag;
}
record_poller_metric (backlog stats age) m = record m {
  retry_due_events = stats.due_count;
  retry_expired_claims = stats.expired_processing_count;
  retry_leased_events = stats.leased_count;
  retry_oldest_due_age = age;
}

-- The poller's reports, the last first.
unfoldable pub record_told : List PollerMetric → Metrics → Metrics
unfolding record_poller_metric
record_told [] m = m
record_told (t ∷ told) m = record_poller_metric t (record_told told m)
