-- ===== src/Repository/Retention.antt =====
-- internal/repository/postgres/retention.go: the two statements of the cleanup. A row that another
-- transaction has locked is skipped, and a negative limit is refused.
pub mod Expired
use webhook_service.Prelude.{
  ℕ, Bool, true, false, not, ◌&&◌, ◌||◌, Option, none, some, List, [], ◌∷◌, GoString, str_eq, ltb,
  leb, ◌==◌, if◌then◌else◌, select, update_where, exists, take, length, is_some, count_where,
}
use webhook_service.Prelude.Int.{ℤ, pos, ltb_ℤ, pos_part}
use webhook_service.Domain.Event.{Time, Event, EventStatus, DeliveryAttempt}
use webhook_service.Domain.Delivery.{Delivery, DeliveryStatus}
use webhook_service.Repository.World.{Database, Environment, Action, exec}
use webhook_service.Repository.Sorting.{sort_by}

-- `response_body IS NOT NULL AND created_at < $1`.
abbrev pub has_old_body : Time → DeliveryAttempt → Bool
has_old_body before a = is_some a.response_body && ltb_ℤ a.created_at before

-- `ORDER BY created_at, id`.
abbrev attempt_age : DeliveryAttempt → DeliveryAttempt → Bool
attempt_age a b =
    if ltb_ℤ a.created_at b.created_at
    then true
    else if ltb_ℤ b.created_at a.created_at
    then false
    else leb a.id b.id

unfoldable pub body_candidates :
    (DeliveryAttempt → Bool) → ℕ → List DeliveryAttempt → List DeliveryAttempt
body_candidates passes limit rows = take limit (sort_by attempt_age (select passes rows))

abbrev pub is_body_candidate : List DeliveryAttempt → DeliveryAttempt → Bool
is_body_candidate chosen a = exists (λ c. c.id == a.id) chosen

abbrev pub without_body : DeliveryAttempt → DeliveryAttempt
without_body a = record a { response_body = none }

-- The update of the rows that were chosen, with their number.
unfoldable pub redact_rows : List DeliveryAttempt → Database → ℕ × Database
redact_rows chosen db = (
  count_where (is_body_candidate chosen) db.attempts,
  record db { attempts = update_where (is_body_candidate chosen) without_body db.attempts },
)

unfoldable pub redact_attempt_bodies : Environment → Time → ℤ → Action ℕ
redact_attempt_bodies env before limit = exec env λ now tick db.
    if ltb_ℤ limit (pos 0)
    then none
    else some (
        redact_rows
          (body_candidates (λ a. has_old_body before a && not (env.locked_attempt tick a.id))
            (pos_part limit) db.attempts)
          db)

-- `status IN ('delivered', 'failed')`, of an event and of a delivery.
abbrev pub event_is_terminal : EventStatus → Bool
event_is_terminal EventStatus.delivered = true
event_is_terminal EventStatus.failed = true
event_is_terminal _ = false

abbrev pub is_terminal : DeliveryStatus → Bool
is_terminal DeliveryStatus.delivered = true
is_terminal DeliveryStatus.failed = true
is_terminal _ = false

-- A delivery of the event that is not terminal.
abbrev pub is_live_of : GoString → Delivery → Bool
is_live_of event_id d = str_eq d.event_id event_id && not (is_terminal d.status)

-- The `WHERE` of the candidates.
unfoldable pub is_expired : Time → List Delivery → Event → Bool
is_expired before deliveries e =
    ltb_ℤ e.updated_at before
    && event_is_terminal e.status
    && not (exists (is_live_of e.id) deliveries)

-- `ORDER BY event.updated_at, event.id`.
abbrev event_age : (GoString → GoString → Bool) → Event → Event → Bool
event_age collate e f =
    if ltb_ℤ e.updated_at f.updated_at
    then true
    else if ltb_ℤ f.updated_at e.updated_at
    then false
    else collate e.id f.id

unfoldable pub event_candidates :
    (GoString → GoString → Bool) → (Event → Bool) → ℕ → List Event → List Event
event_candidates collate passes limit rows =
    take limit (sort_by (event_age collate) (select passes rows))

abbrev pub is_chosen_id : List Event → GoString → Bool
is_chosen_id chosen id = exists (λ (c : Event). str_eq c.id id) chosen

-- The foreign key of an attempt names this delivery.
abbrev pub is_attempt_of : DeliveryAttempt → Delivery → Bool
is_attempt_of a d =
    str_eq d.id a.delivery_id
    && str_eq d.event_id a.event_id
    && str_eq d.subscription_id a.subscription_id

-- The delete, which takes the deliveries of the events and the attempts of these along
-- (`ON DELETE CASCADE`), with the number of events.
unfoldable pub delete_rows : List Event → Database → ℕ × Database
delete_rows chosen db =
    let gone = λ (d : Delivery). is_chosen_id chosen d.event_id in
    (
      count_where (λ (e : Event). is_chosen_id chosen e.id) db.events,
      record db {
        events = select (λ (e : Event). not (is_chosen_id chosen e.id)) db.events;
        deliveries = select (λ d. not (gone d)) db.deliveries;
        attempts =
            select (λ a. not (exists (is_attempt_of a) (select gone db.deliveries))) db.attempts;
      },
    )

unfoldable pub delete_terminal_events : Environment → Time → ℤ → Action ℕ
delete_terminal_events env before limit = exec env λ now tick db.
    if ltb_ℤ limit (pos 0)
    then none
    else some (
        delete_rows
          (event_candidates env.collate
            (λ e. is_expired before db.deliveries e && not (env.locked_event tick e.id))
            (pos_part limit) db.events)
          db)
