-- ===== src/Tests/System.antt =====
-- Runs of the theorems on the states that the instances reach.
use webhook_service.Prelude.{◌≡◌, refl, inl, some, List, [], ◌∷◌, lit, str_eq}
use webhook_service.Prelude.Int.{pos}
use webhook_service.Domain.Delivery.{Delivery, new_delivery, delivery_id}
use webhook_service.Repository.World.{
  World, ok, time_now, query, exec, close_transaction, transaction,
}
use webhook_service.Repository.Rows.{In}
use webhook_service.Repository.Reads.{ClaimedDelivery, get_deliveries_by_event_id}
use webhook_service.Repository.Sorting.{sort_by, insert_by}
use webhook_service.Repository.Initialize.{
  insert_event_row, insert_delivery_row, insert_deliveries, initialize_body,
  initialize_event_deliveries, with_defaults, event_row,
}
use webhook_service.Repository.Subscriptions.{create}
use webhook_service.Repository.Claim.{claim_deliveries}
use webhook_service.Repository.Invariant.{IsValid}
use webhook_service.System.{Reach, start, step, initialized, subscribed, claimed, empty_world}
use webhook_service.System.Invariant.{Reach-IsValid}
use webhook_service.System.Progress.{Served, Reach-progress}
use webhook_service.Tests.Data.{event_1, sub_a, calm}

-- The world after the first subscription, after its first event, and after the claim.
abbrev prepared : World
prepared = (create calm sub_a empty_world).1

abbrev accepted : World
accepted = (initialize_event_deliveries calm (some event_1) (some sub_a ∷ []) prepared).1

abbrev leased : World
leased = (claim_deliveries calm (lit "w") (pos 30000) (pos 10) accepted).1

accepted-Reach : Reach accepted
accepted-Reach =
    step (step start (subscribed calm sub_a empty_world))
      (initialized calm (some event_1) (some sub_a ∷ []) prepared)

Reach-IsValid_example : IsValid leased.db
Reach-IsValid_example =
    Reach-IsValid (step accepted-Reach (claimed calm (lit "w") (pos 30000) (pos 10) accepted))

abbrev new_row : Delivery
new_row = new_delivery (pos 1000) event_1 sub_a

new_row-In : In new_row accepted.db.deliveries
unfolding initialize_event_deliveries initialize_body insert_event_row insert_delivery_row
    insert_deliveries with_defaults event_row new_delivery time_now exec close_transaction
    transaction query get_deliveries_by_event_id str_eq sort_by insert_by delivery_id create
new_row-In = inl refl

Reach-progress_example :
    (claims : List ClaimedDelivery) × ((claim_deliveries calm
        (lit "w")
        (pos 30000)
        (pos 10)
        accepted).0
      ≡ ok claims)
    × Served calm (lit "w") (pos 30000) 10 accepted new_row claims
unfolding initialize_event_deliveries initialize_body insert_event_row insert_delivery_row
    insert_deliveries with_defaults event_row new_delivery time_now exec close_transaction
    transaction query get_deliveries_by_event_id str_eq sort_by insert_by delivery_id create
Reach-progress_example =
    Reach-progress calm (lit "w") (pos 30000) 10 new_row accepted-Reach new_row-In refl refl refl
      refl
