-- ===== src/Repository/Outcome.antt =====
-- internal/repository/postgres/event.go: `PersistClaimedDeliveryOutcome`, which writes the outcome
-- of a claimed delivery under the fence of its owner and deadline, and `updateEventProjection`.
pub mod Projection
pub mod Attempts
pub mod Fence
pub mod Untold
use webhook_service.Prelude.{
  ℕ, suc, Bool, true, false, ◌&&◌, Option, none, some, List, [], ◌∷◌, ◌++◌, map, GoString, str_eq,
  is_empty, if◌then◌else◌, update_where, exists, count_where, ◌==◌,
}
use webhook_service.Prelude.Int.{pos, leb_ℤ, int_eq}
use webhook_service.Domain.Event.{Time, claim_lost, not_found, Event, DeliveryAttempt}
use webhook_service.Domain.Delivery.{Delivery, DeliveryStatus, status_eq}
use webhook_service.Domain.Projection.{EventProjection, project_event}
use webhook_service.Repository.World.{
  Database, Environment, ok, Action, ◌>>=◌, ◌>>◌, pure, throw, require, time_now, exec, transaction,
}
use webhook_service.Repository.Reads.{get_deliveries_by_event_id}

abbrev or_default : GoString → GoString → GoString
or_default s d = if is_empty s then d else s

-- `normalizeDeliveryAttempt`, on the delivery and then on the attempt.
unfoldable pub normalize_delivery : Delivery → Delivery
normalize_delivery d = if leb_ℤ d.generation (pos 0) then record d { generation = pos 1 } else d

unfoldable pub normalize_delivery_attempt : Delivery → DeliveryAttempt → DeliveryAttempt
unfolding normalize_delivery
normalize_delivery_attempt d a = record a {
  event_id = or_default a.event_id d.event_id;
  delivery_id = or_default a.delivery_id d.id;
  subscription_id = or_default a.subscription_id d.subscription_id;
  generation =
      if leb_ℤ a.generation (pos 0) then (normalize_delivery d).generation else a.generation;
}

-- The condition of the update: the row is still processing under this owner and deadline. A null
-- column equals nothing.
abbrev holds_text : GoString → Option GoString → Bool
holds_text s none = false
holds_text s (some t) = str_eq t s

abbrev holds_time : Time → Option Time → Bool
holds_time t none = false
holds_time t (some u) = int_eq u t

unfoldable pub fenced : GoString → GoString → Time → Delivery → Bool
fenced id owner deadline row =
    str_eq row.id id
    && status_eq row.status DeliveryStatus.processing
    && holds_text owner row.processing_owner
    && holds_time deadline row.processing_deadline

-- `SET status = $2, …`.
unfoldable pub with_outcome : Delivery → Delivery → Delivery
with_outcome d row = record row {
  status = d.status;
  attempts = d.attempts;
  next_attempt_at = d.next_attempt_at;
  last_error = d.last_error;
  processing_owner = none;
  processing_deadline = none;
  updated_at = d.updated_at;
  delivered_at = d.delivered_at;
}

-- The update, with the number of rows that it changed.
unfoldable pub update_outcome : GoString → Time → Delivery → Database → ℕ × Database
update_outcome owner deadline d db =
    let mine = fenced d.id owner deadline in
    (
      count_where mine db.deliveries,
      record db { deliveries = update_where mine (with_outcome d) db.deliveries },
    )

-- `nextval` of the sequence behind `delivery_attempts.id`.
abbrev pub next_serial : Action ℕ
next_serial w = (ok w.serial, record w { serial = suc w.serial })

-- The reference to the delivery, and the check on the generation.
abbrev attempt_allowed : DeliveryAttempt → Database → Bool
attempt_allowed a db =
    exists
      (λ d.
        str_eq d.id a.delivery_id
        && str_eq d.event_id a.event_id
        && str_eq d.subscription_id a.subscription_id)
      db.deliveries
    && (if leb_ℤ a.generation (pos 0) then false else true)

unfoldable pub insert_attempt_row : DeliveryAttempt → Database → Option (Unit {0} × Database)
insert_attempt_row a db =
    if attempt_allowed a db
    then some (tt, record db { attempts = db.attempts ++ (a ∷ []) })
    else none

-- The loop over the attempts. `created_at` is the column's default, `NOW()`.
unfoldable pub insert_attempts :
    Environment → Time → Delivery → List DeliveryAttempt → Action (Unit {0})
insert_attempts env tx_now d [] = pure tt
insert_attempts env tx_now d (a ∷ more) = do
  id ← next_serial
  let row = record (normalize_delivery_attempt d a) { id = id; created_at = tx_now }
  exec env (λ _ _ db. insert_attempt_row row db)
  insert_attempts env tx_now (normalize_delivery d) more

unfoldable pub project_row : Time → EventProjection → Event → Event
project_row tx_now p e = record e {
  status = p.status;
  attempts = p.attempts;
  next_attempt_at = p.next_attempt_at;
  last_error = p.last_error;
  updated_at = tx_now;
  delivered_at = p.delivered_at;
}

-- The reading of `time.Now()` is used only where the event has no deliveries.
unfoldable pub update_event_projection : Environment → Time → GoString → Action (Unit {0})
update_event_projection env tx_now event_id = do
  deliveries ← get_deliveries_by_event_id env event_id
  now ← time_now env
  let p = project_event now (map some deliveries)
  affected ← exec env λ _ _ db.
      let this = λ (e : Event). str_eq e.id event_id in
      some (
        count_where this db.events,
        record db { events = update_where this (project_row tx_now p) db.events },
      )
  require (affected == 1) not_found

unfoldable pub persist_body :
    Environment → Time → GoString → Time → Delivery → List DeliveryAttempt → Action (Unit {0})
persist_body env tx_now owner deadline d attempts = do
  affected ← exec env (λ _ _ db. some (update_outcome owner deadline d db))
  require (affected == 1) claim_lost
  insert_attempts env tx_now d attempts
  update_event_projection env tx_now d.event_id

-- The lease of the delivery in memory, both parts of it or none.
abbrev pub lease_held : Delivery → Option (GoString × Time)
lease_held d = elim d.processing_owner [
  | none ↦ none
  | some owner ↦ elim d.processing_deadline [ none ↦ none | some deadline ↦ some (owner, deadline) ]
]

abbrev pub persist_leased :
    Environment → Delivery → List DeliveryAttempt → Option (GoString × Time) → Action (Unit {0})
persist_leased env d attempts none = throw claim_lost
persist_leased env d attempts (some (owner, deadline)) =
    transaction env (λ tx_now. persist_body env tx_now owner deadline d attempts)

unfoldable pub persist_claimed_delivery_outcome :
    Environment → Option Delivery → List DeliveryAttempt → Action (Unit {0})
persist_claimed_delivery_outcome env none attempts = throw claim_lost
persist_claimed_delivery_outcome env (some d) attempts =
    persist_leased env d attempts (lease_held d)
