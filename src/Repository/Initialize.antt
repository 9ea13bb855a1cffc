-- ===== src/Repository/Initialize.antt =====
-- internal/repository/postgres/event.go: `InitializeEventDeliveries`, which stores an event and one
-- delivery row for each subscription that it matches.
pub mod Frozen
pub mod Repeated
use webhook_service.Prelude.{
  Bool, not, ◌&&◌, Option, none, some, List, [], ◌∷◌, ◌++◌, str_eq, if◌then◌else◌, exists,
}
use webhook_service.Prelude.Int.{pos, leb_ℤ, int_eq}
use webhook_service.Domain.Event.{Time, nil_event, Event, EventStatus}
use webhook_service.Domain.Subscription.{Subscription}
use webhook_service.Domain.Delivery.{Delivery, new_delivery}
use webhook_service.Repository.World.{
  Database, Environment, Action, ◌>>=◌, ◌>>◌, pure, throw, time_now, exec, transaction,
}
use webhook_service.Repository.Reads.{get_deliveries_by_event_id}

-- The defaults that are written to `*event`.
unfoldable pub with_defaults : Time → Event → Event
with_defaults now event =
    let created = if int_eq event.created_at (pos 0) then now else event.created_at in
    record event {
      created_at = created;
      updated_at = if int_eq event.updated_at (pos 0) then created else event.updated_at;
      max_attempts = if int_eq event.max_attempts (pos 0) then pos 5 else event.max_attempts;
    }

-- The row that is inserted: with no subscription the event counts as delivered.
unfoldable pub event_row : Time → List (Option Subscription) → Event → Event
event_row now [] event = record event {
  status = EventStatus.delivered;
  delivered_at = elim event.delivered_at [ none ↦ some now | some t ↦ some t ];
}
event_row now (_ ∷ _) event = record event {
  status = elim event.status [ EventStatus.unset ↦ EventStatus.pending | s ↦ s ];
}

-- `INSERT INTO events … ON CONFLICT (id) DO NOTHING`.
unfoldable pub insert_event_row : Event → Database → Database
insert_event_row event db =
    if exists (λ e. str_eq e.id event.id) db.events
    then db
    else record db { events = db.events ++ (event ∷ []) }

abbrev pub same_pair : Delivery → Delivery → Bool
same_pair d e = str_eq e.event_id d.event_id && str_eq e.subscription_id d.subscription_id

-- The constraints of the table: the primary key, the two references and the check.
abbrev pub row_allowed : Delivery → Database → Bool
row_allowed d db =
    not (exists (λ e. str_eq e.id d.id) db.deliveries)
    && exists (λ e. str_eq e.id d.event_id) db.events
    && exists (λ s. str_eq s.id d.subscription_id) db.subscriptions
    && not (leb_ℤ d.generation (pos 0))

-- `INSERT INTO deliveries … ON CONFLICT (event_id, subscription_id) DO NOTHING`: only that conflict
-- is passed over, and another one refuses the statement.
unfoldable pub insert_delivery_row : Delivery → Database → Option (Unit {0} × Database)
insert_delivery_row d db =
    if exists (same_pair d) db.deliveries
    then some (tt, db)
    else if row_allowed d db
    then some (tt, record db { deliveries = db.deliveries ++ (d ∷ []) })
    else none

-- The loop over the subscriptions; `none` is a nil pointer.
unfoldable pub insert_deliveries :
    Environment → Event → List (Option Subscription) → Action (Unit {0})
insert_deliveries env event [] = pure tt
insert_deliveries env event (none ∷ subs) = insert_deliveries env event subs
insert_deliveries env event (some sub ∷ subs) = do
  now ← time_now env
  exec env (λ _ _ db. insert_delivery_row (new_delivery now event sub) db)
  insert_deliveries env event subs

unfoldable pub initialize_body :
    Environment → Event → List (Option Subscription) → Action (List Delivery)
initialize_body env event subs = do
  now ← time_now env
  exec env λ _ _ db. some (tt, insert_event_row (event_row now subs (with_defaults now event)) db)
  insert_deliveries env (with_defaults now event) subs
  get_deliveries_by_event_id env event.id

unfoldable pub initialize_event_deliveries :
    Environment → Option Event → List (Option Subscription) → Action (List Delivery)
initialize_event_deliveries env none subs = throw nil_event
initialize_event_deliveries env (some event) subs =
    transaction env (λ tx_now. initialize_body env event subs)
