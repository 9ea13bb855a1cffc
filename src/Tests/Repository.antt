-- ===== src/Tests/Repository.antt =====
-- Runs of the theorems on the tables.
use webhook_service.Prelude.{
  ◌≡◌, ◌≢◌, refl, false, some, [], ◌∷◌, GoString, lit, All, str_eq, count_where, arith,
}
use webhook_service.Prelude.Int.{pos, ◌+ℤ◌, pos_part}
use webhook_service.Domain.Event.{Time}
use webhook_service.Domain.Subscription.{Subscription, effective_rate_policy}
use webhook_service.Domain.Delivery.{Delivery, new_delivery, delivery_id, schedule_replay}
use webhook_service.Domain.Projection.{
  project_event, project_loop, project_delivery, finish, join_status, sooner, later,
}
use webhook_service.Repository.World.{
  World, ok, transaction, close_transaction, time_now, query, exec,
}
use webhook_service.Repository.Sorting.{sort_by, insert_by}
use webhook_service.Repository.Reads.{ClaimedDelivery, deliveries_of, get_deliveries_by_event_id}
use webhook_service.Repository.Initialize.{
  with_defaults, initialize_event_deliveries, initialize_body, insert_deliveries,
  insert_delivery_row, insert_event_row, event_row,
}
use webhook_service.Repository.Initialize.Frozen.{
  Freezes, with_event, initialize_event_deliveries-Freezes,
}
use webhook_service.Repository.Initialize.Repeated.{initialize_event_deliveries-id_taken}
use webhook_service.Repository.Claim.{
  claim_deliveries, claim_event_deliveries, lease, claim_rows, candidates, due_order,
  event_due_order, due_at, claimable, claim_of, postgres_interval,
}
use webhook_service.Repository.Claim.Granted.{Grants, claim_deliveries-Grants}
use webhook_service.Repository.Claim.Exclusion.{Grants-exclusive}
use webhook_service.Repository.Outcome.{
  fenced, persist_claimed_delivery_outcome, persist_body, update_outcome, with_outcome,
  insert_attempts, insert_attempt_row, normalize_delivery_attempt, normalize_delivery,
  update_event_projection, project_row,
}
use webhook_service.Repository.Outcome.Fence.{
  projected, outcome_written, persist_claimed_delivery_outcome-ok, persist_once,
}
use webhook_service.Tests.Data.{
  sub_a, event_1, pending_row, failed_row, leased_row, finished, attempt_2, tables, world_of,
  empty_world, with_row, calm,
}

initialize_event_deliveries-Freezes_example :
    let after =
      (initialize_event_deliveries calm (some event_1) (some sub_a ∷ []) empty_world).1.db in
    (now : Time) × Freezes
      (with_defaults now event_1)
      (some sub_a ∷ [])
      (with_event now (some sub_a ∷ []) event_1 empty_world.db)
      after
    × (new_delivery (pos 1000) event_1 sub_a ∷ [] ≡ deliveries_of calm event_1.id after)
unfolding str_eq transaction close_transaction time_now query exec sort_by insert_by
    get_deliveries_by_event_id deliveries_of initialize_event_deliveries initialize_body
    insert_deliveries insert_delivery_row insert_event_row event_row with_defaults new_delivery
    delivery_id effective_rate_policy
initialize_event_deliveries-Freezes_example =
    initialize_event_deliveries-Freezes calm event_1 (some sub_a ∷ []) empty_world refl

-- The row of the event `1:a` and the subscription `b` has the id of the event `1` and `a:b`.
abbrev clashing_row : Delivery
clashing_row = record pending_row {
  id = lit "1:a:b";
  event_id = lit "1:a";
  subscription_id = lit "b";
}

abbrev sub_ab : Subscription
sub_ab = record sub_a { id = lit "a:b" }

initialize_event_deliveries-id_taken_example :
    (initialize_event_deliveries calm (some event_1) (some sub_ab ∷ []) (with_row clashing_row)).0
    ≢ ok []
unfolding str_eq transaction close_transaction time_now query exec sort_by insert_by
    get_deliveries_by_event_id deliveries_of initialize_event_deliveries initialize_body
    insert_deliveries insert_delivery_row insert_event_row event_row with_defaults new_delivery
    delivery_id effective_rate_policy
initialize_event_deliveries-id_taken_example =
    initialize_event_deliveries-id_taken calm event_1 sub_ab [] (with_row clashing_row) refl refl

claim_deliveries-Grants_example :
    Grants
      (pos 1000)
      (λ _. false)
      (lit "w")
      (pos 30000)
      (pos_part (pos 5))
      (with_row pending_row).db
      (record { delivery = lease (pos 1000) (lit "w") (pos 30000) pending_row; reclaimed = false }
        ∷ [])
      (claim_deliveries calm (lit "w") (pos 30000) (pos 5) (with_row pending_row)).1.db
unfolding str_eq transaction close_transaction time_now query exec sort_by insert_by
    get_deliveries_by_event_id deliveries_of claim_deliveries claim_event_deliveries claim_rows
    candidates due_order event_due_order due_at claimable claim_of lease postgres_interval
claim_deliveries-Grants_example =
    claim_deliveries-Grants calm (lit "w") (pos 30000) (pos 5) (with_row pending_row) refl

-- Two workers claim one row each, of two.
abbrev row_b : Delivery
row_b = record pending_row { id = lit "1:b"; subscription_id = lit "b" }

abbrev two_rows : World
two_rows = world_of (tables (event_1 ∷ []) (pending_row ∷ row_b ∷ []))

abbrev after_claim : World
after_claim = (claim_deliveries calm (lit "w") (pos 30000) (pos 1) two_rows).1

abbrev claim_by : GoString → Delivery → ClaimedDelivery
claim_by owner d = record { delivery = lease (pos 1000) owner (pos 30000) d; reclaimed = false }

Grants-exclusive_example :
    All
      (λ (c : ClaimedDelivery).
        All
          (λ (c' : ClaimedDelivery). c'.delivery.id ≢ c.delivery.id)
          (claim_by (lit "v") row_b ∷ []))
      (claim_by (lit "w") pending_row ∷ [])
unfolding str_eq transaction close_transaction time_now query exec sort_by insert_by
    get_deliveries_by_event_id deliveries_of claim_deliveries claim_event_deliveries claim_rows
    candidates due_order event_due_order due_at claimable claim_of lease postgres_interval ◌+ℤ◌
Grants-exclusive_example =
    Grants-exclusive (claim_deliveries-Grants calm (lit "w") (pos 30000) (pos 1) two_rows refl)
      (λ c e ic ie same. ie)
      (claim_deliveries-Grants calm (lit "v") (pos 30000) (pos 1) after_claim refl) (omega arith)

persist_claimed_delivery_outcome-ok_example :
    (owner : GoString) × (deadline : Time) × (now : Time) × (finished.processing_owner ≡ some owner)
    × (finished.processing_deadline ≡ some deadline)
    × (count_where (fenced finished.id owner deadline) (with_row leased_row).db.deliveries ≡ 1)
    × ((persist_claimed_delivery_outcome calm
          (some finished)
          (attempt_2 ∷ [])
          (with_row leased_row)).1.db
        ≡ projected calm now (pos 1000) finished.event_id (
            outcome_written
              (pos 1000)
              1
              owner
              deadline
              finished
              (attempt_2 ∷ [])
              (with_row leased_row).db))
unfolding str_eq transaction close_transaction time_now query exec sort_by insert_by
    get_deliveries_by_event_id deliveries_of persist_claimed_delivery_outcome persist_body
    update_outcome fenced with_outcome insert_attempts insert_attempt_row normalize_delivery_attempt
    normalize_delivery update_event_projection project_row project_event project_loop
    project_delivery finish join_status sooner later
persist_claimed_delivery_outcome-ok_example =
    persist_claimed_delivery_outcome-ok calm finished (attempt_2 ∷ []) (with_row leased_row) refl

abbrev after_persist : World
after_persist =
    (persist_claimed_delivery_outcome calm (some finished) (attempt_2 ∷ []) (with_row leased_row)).1

persist_once_example :
    (persist_claimed_delivery_outcome calm (some finished) [] after_persist).0 ≢ ok tt
unfolding str_eq transaction close_transaction time_now query exec sort_by insert_by
    get_deliveries_by_event_id deliveries_of persist_claimed_delivery_outcome persist_body
    update_outcome fenced with_outcome insert_attempts insert_attempt_row normalize_delivery_attempt
    normalize_delivery update_event_projection project_row project_event project_loop
    project_delivery finish join_status sooner later
persist_once_example =
    persist_once calm calm finished finished (attempt_2 ∷ []) [] (with_row leased_row) after_persist
      refl (λ e i same. i) refl refl refl

abbrev replayed : Delivery
replayed = (schedule_replay (pos 50) failed_row).1
