-- ===== src/Observability/Names.antt =====
-- internal/observability/metrics.go: the names under which `NewMetrics` registers its metrics. Prometheus
-- refuses a name that is registered already, and `promauto` panics then.
use webhook_service.Prelude.{
  ◌≢◌, ◌≡◌, refl, Bool, true, Option, none, some, List, [], ◌∷◌, ◌++◌, GoString, lit, str_eq,
  str_eq_refl, exists, if◌then◌else◌, Bool-cases, inl, inr, arith,
}

abbrev pub metric_names : List GoString
metric_names =
    lit "events_received_total"
    ∷ lit "events_delivered_total"
    ∷ lit "events_failed_total"
    ∷ lit "events_retrying_total"
    ∷ lit "events_throttled_total"
    ∷ lit "delivery_duration_seconds"
    ∷ lit "delivery_attempts_total"
    ∷ lit "http_requests_total"
    ∷ lit "http_request_duration_seconds"
    ∷ lit "rate_limiter_rejections_total"
    ∷ lit "retry_events_claimed_total"
    ∷ lit "retry_events_reclaimed_total"
    ∷ lit "retry_empty_polls_total"
    ∷ lit "retry_claim_failures_total"
    ∷ lit "retry_persistence_failures_total"
    ∷ lit "retry_stale_owner_rejections_total"
    ∷ lit "retry_active_batches"
    ∷ lit "retry_due_events"
    ∷ lit "retry_expired_claims"
    ∷ lit "retry_leased_events"
    ∷ lit "retry_oldest_due_age_seconds"
    ∷ lit "retry_scheduling_lag_seconds"
    ∷ lit "retention_attempt_bodies_redacted_total"
    ∷ lit "retention_terminal_events_deleted_total"
    ∷ lit "retention_cleanup_failures_total"
    ∷ lit "retention_cleanup_duration_seconds"
    ∷ lit "retention_last_success_timestamp_seconds"
    ∷ []

-- `Namespace` and `Name` of the options, joined.
abbrev pub full_name : GoString → GoString → GoString
full_name namespace name = namespace ++ (lit "_" ++ name)

abbrev pub registered : GoString → List GoString → Bool
registered name names = exists (λ n. str_eq n name) names

abbrev register_one : GoString → Option (List GoString) → Option (List GoString)
register_one name none = none
register_one name (some names) = if registered name names then none else some (name ∷ names)

-- The registrations in their order; `none` is a panic.
unfoldable pub register_all :
    GoString → List GoString → Option (List GoString) → Option (List GoString)
register_all namespace [] r = r
register_all namespace (name ∷ names) r =
    register_all namespace names (register_one (full_name namespace name) r)

-- What `NewMetrics` makes of the registry.
unfoldable pub register_metrics : GoString → List GoString → Option (List GoString)
unfolding register_all
register_metrics namespace registry = register_all namespace metric_names (some registry)

register_all-panicked :
    (namespace : GoString) (names : List GoString) → register_all namespace names none ≡ none
unfolding register_all
register_all-panicked namespace [] = refl
register_all-panicked namespace (name ∷ names) = register_all-panicked namespace names

registered-head : (name : GoString) (names : List GoString) → registered name (name ∷ names) ≡ true
registered-head name names = ground (arith, str_eq_refl name)

register_all-keeps :
    (namespace name : GoString) (names before : List GoString) {after : List GoString}
    → registered name before ≡ true
    → register_all namespace names (some before) ≡ some after
    → registered name after ≡ true
unfolding register_all
register_all-keeps namespace name [] before h e = ground (arith, h, e)
register_all-keeps namespace name (n ∷ names) before h e =
    elim (Bool-cases (registered (full_name namespace n) before)) [
      | inl taken ↦ absurd (cc (register_all-panicked namespace names, rw taken at e))
      | inr free ↦
          register_all-keeps namespace name names (full_name namespace n ∷ before)
            (ground (arith, h)) (rw free at e)
    ]

register_all_twice :
    (namespace name : GoString) (names registry : List GoString) {after : List GoString}
    → register_all namespace (name ∷ names) (some registry) ≡ some after
    → register_all namespace (name ∷ names) (some after) ≡ none
unfolding register_all
register_all_twice namespace name names registry {after} e =
    let full = full_name namespace name in
    elim (Bool-cases (registered full registry)) [
      | inl taken ↦ absurd (cc (register_all-panicked namespace names, rw taken at e))
      | inr free ↦
          let again =
            register_all-keeps namespace full names (full ∷ registry)
              (registered-head full registry) (rw free at e) in
          rw again (register_all-panicked namespace names)
    ]

register_all_again :
    (namespace : GoString) (names registry : List GoString) {after : List GoString}
    → names ≢ []
    → register_all namespace names (some registry) ≡ some after
    → register_all namespace names (some after) ≡ none
register_all_again namespace [] registry some_name e = absurd (some_name refl)
register_all_again namespace (name ∷ names) registry some_name e =
    register_all_twice namespace name names registry e

-- Two sets of metrics with one namespace cannot be registered in one process: the second call of
-- `NewMetrics` panics.
pub register_metrics_twice :
    (namespace : GoString) (registry : List GoString) {after : List GoString}
    → register_metrics namespace registry ≡ some after
    → register_metrics namespace after ≡ none
unfolding register_metrics
register_metrics_twice namespace registry e =
    register_all_again namespace metric_names registry (λ empty. cc empty) e
