-- ===== src/Repository/Outcome/Untold.antt =====
-- internal/repository/postgres/event.go: the write of an outcome tells the observers nothing.
use webhook_service.Prelude.{refl, Option, none, some, List, [], ◌∷◌, GoString}
use webhook_service.Domain.Event.{Time, claim_lost, DeliveryAttempt}
use webhook_service.Domain.Delivery.{Delivery}
use webhook_service.Repository.World.{Environment}
use webhook_service.Repository.World.Quiet.{
  Quiet, Quiet-pure, Quiet-throw, Quiet->>=, Quiet-require, Quiet-time_now, Quiet-query, Quiet-exec,
  Quiet-transaction,
}
use webhook_service.Repository.Reads.{get_deliveries_by_event_id}
use webhook_service.Repository.Outcome.{
  next_serial, normalize_delivery, insert_attempts, update_event_projection, persist_body,
  lease_held, persist_leased, persist_claimed_delivery_outcome,
}

Quiet-next_serial : Quiet next_serial
Quiet-next_serial = record { untold = λ w. refl }

Quiet-insert_attempts :
    (env : Environment) (now : Time) (d : Delivery) (attempts : List DeliveryAttempt)
    → Quiet (insert_attempts env now d attempts)
unfolding insert_attempts
Quiet-insert_attempts env now d [] = Quiet-pure tt
Quiet-insert_attempts env now d (a ∷ more) = Quiet->>= Quiet-next_serial λ id.
    Quiet->>= (Quiet-exec env _) λ _. Quiet-insert_attempts env now (normalize_delivery d) more

Quiet-update_event_projection :
    (env : Environment) (now : Time) (id : GoString) → Quiet (update_event_projection env now id)
unfolding update_event_projection get_deliveries_by_event_id
Quiet-update_event_projection env now id = Quiet->>= (Quiet-query env _) λ rows.
    Quiet->>= (Quiet-time_now env) λ t. Quiet->>= (Quiet-exec env _) λ affected. Quiet-require _ _

Quiet-persist_body :
    (env : Environment) (now : Time) (owner : GoString) (deadline : Time) (d : Delivery)
    (attempts : List DeliveryAttempt)
    → Quiet (persist_body env now owner deadline d attempts)
unfolding persist_body
Quiet-persist_body env now owner deadline d attempts = Quiet->>= (Quiet-exec env _) λ affected.
    Quiet->>= (Quiet-require _ claim_lost) λ _.
      Quiet->>= (Quiet-insert_attempts env now d attempts)
        λ _. Quiet-update_event_projection env now d.event_id

Quiet-persist_leased :
    (env : Environment) (d : Delivery) (attempts : List DeliveryAttempt)
    (held : Option (GoString × Time))
    → Quiet (persist_leased env d attempts held)
Quiet-persist_leased env d attempts none = Quiet-throw claim_lost
Quiet-persist_leased env d attempts (some (owner, deadline)) =
    Quiet-transaction env _ (λ now. Quiet-persist_body env now owner deadline d attempts)

pub Quiet-persist_claimed_delivery_outcome :
    (env : Environment) (d : Option Delivery) (attempts : List DeliveryAttempt)
    → Quiet (persist_claimed_delivery_outcome env d attempts)
unfolding persist_claimed_delivery_outcome
Quiet-persist_claimed_delivery_outcome env none attempts = Quiet-throw claim_lost
Quiet-persist_claimed_delivery_outcome env (some d) attempts =
    Quiet-persist_leased env d attempts (lease_held d)
