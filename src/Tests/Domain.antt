-- ===== src/Tests/Domain.antt =====
-- Runs of the theorems on subscriptions, deliveries and projections.
use webhook_service.Prelude.{◌≡◌, ◌↔◌, true, Any, some, [], ◌∷◌}
use webhook_service.Prelude.Int.{pos}
use webhook_service.Domain.Subscription.{matches_event_type}
use webhook_service.Domain.Subscription.Matching.{Accepts, matches_event_type_iff}
use webhook_service.Domain.Projection.{project_event}
use webhook_service.Domain.Projection.Rank.{status_at, top_rank, project_event-status}
use webhook_service.Domain.Projection.Bounds.{Summarises, project_event-Summarises}
use webhook_service.Tests.Data.{sub_a, order_created, failed_row, pending_row}

matches_event_type_iff_example :
    (matches_event_type sub_a order_created ≡ true)
    ↔ Any (λ t. Accepts t order_created) sub_a.event_types
matches_event_type_iff_example = matches_event_type_iff sub_a order_created

project_event-status_example :
    (project_event (pos 50) (some failed_row ∷ some pending_row ∷ [])).status
    ≡ status_at (top_rank (some failed_row ∷ some pending_row ∷ []))
project_event-status_example =
    project_event-status (pos 50) (some failed_row ∷ some pending_row ∷ [])

project_event-Summarises_example :
    let p = project_event (pos 50) (some failed_row ∷ some pending_row ∷ []) in
    Summarises (some failed_row ∷ some pending_row ∷ []) p.attempts p.next_attempt_at
project_event-Summarises_example =
    project_event-Summarises (pos 50) (some failed_row ∷ some pending_row ∷ [])
