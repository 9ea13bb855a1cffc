-- ===== src/Repository/Invariant.antt =====
-- The invariant of the tables that the operations keep among them, beyond the checks of the database.
pub mod Changes
pub mod Inserts
pub mod Events
pub mod Operations
use webhook_service.Prelude.{
  ◌≡◌, Bool, true, false, not, ◌&&◌, Option, none, some, List, GoString, str_eq, All, exists,
  is_some,
}
use webhook_service.Domain.Event.{Time, Event}
use webhook_service.Domain.Delivery.{Delivery, DeliveryStatus}
use webhook_service.Repository.World.{Database}
use webhook_service.Repository.Keys.{Distinct}
use webhook_service.Repository.Initialize.{same_pair}

-- No lease.
abbrev pub unleased : Delivery → Bool
unleased d = not (is_some d.processing_owner) && not (is_some d.processing_deadline)

-- A row is leased, with an owner and a deadline, exactly while it is processing, and a row that waits
-- for another attempt has the instant of it.
abbrev pub row_sound : Delivery → Bool
row_sound d = elim d.status [
  | DeliveryStatus.processing ↦ is_some d.processing_owner && is_some d.processing_deadline
  | DeliveryStatus.retrying ↦ unleased d && is_some d.next_attempt_at
  | DeliveryStatus.throttled ↦ unleased d && is_some d.next_attempt_at
  | _ ↦ unleased d
]

abbrev pub same_event : Event → Event → Bool
same_event e f = str_eq f.id e.id

abbrev pub same_delivery : Delivery → Delivery → Bool
same_delivery d e = str_eq e.id d.id

-- The event of a delivery stands in its table.
abbrev pub has_event : List Event → Delivery → Bool
has_event events d = exists (λ (e : Event). str_eq e.id d.event_id) events

pub record WellFormed (events : List Event) (deliveries : List Delivery) : Type 0 where
  pub rows : All (λ d. row_sound d ≡ true) deliveries
  pub parents : All (λ d. has_event events d ≡ true) deliveries
  pub event_keys : Distinct same_event events
  pub delivery_keys : Distinct same_delivery deliveries
  pub pair_keys : Distinct same_pair deliveries

abbrev pub IsValid : Database → Type 0
IsValid db = WellFormed db.events db.deliveries
