-- ===== src/Repository/Reads.antt =====
-- internal/repository/postgres/event.go: the operations that read, and the interface's claim record
-- and statistics (internal/repository/interfaces.go).
use webhook_service.Prelude.{
  ℕ, Bool, true, false, ◌&&◌, ◌||◌, Option, none, some, List, [], ◌∷◌, GoString, str_eq,
  if◌then◌else◌, select, count_where, leb,
}
use webhook_service.Prelude.Int.{leb_ℤ, ltb_ℤ}
use webhook_service.Domain.Event.{Time, not_found, Event, DeliveryAttempt}
use webhook_service.Domain.Delivery.{Delivery, DeliveryStatus, status_eq}
use webhook_service.Repository.World.{Database, Environment, Action, ◌>>=◌, pure, throw, query}
use webhook_service.Repository.Sorting.{sort_by}

pub record ClaimedDelivery : Type 0 where
  pub delivery : Delivery
  pub reclaimed : Bool

pub record RetryBacklogStats : Type 0 where
  pub due_count : ℕ
  pub oldest_due_at : Option Time
  pub expired_processing_count : ℕ
  pub leased_count : ℕ

abbrev pub find : {A : Type 0} → (A → Bool) → List A → Option A
find p [] = none
find p (x ∷ xs) = let rest = find p xs in if p x then some x else rest

abbrev first_or_not_found : {A : Type 0} → Option A → Action A
first_or_not_found none = throw not_found
first_or_not_found (some a) = pure a

unfoldable pub get_by_id : Environment → GoString → Action Event
get_by_id env id = do
  row ← query env (λ now tick db. find (λ e. str_eq e.id id) db.events)
  first_or_not_found row

-- `ORDER BY created_at, id`.
abbrev pub created_order : Environment → Delivery → Delivery → Bool
created_order env d e =
    if ltb_ℤ d.created_at e.created_at
    then true
    else if ltb_ℤ e.created_at d.created_at
    then false
    else env.collate d.id e.id

unfoldable pub deliveries_of : Environment → GoString → Database → List Delivery
deliveries_of env event_id db =
    sort_by (created_order env) (select (λ d. str_eq d.event_id event_id) db.deliveries)

unfoldable pub get_deliveries_by_event_id : Environment → GoString → Action (List Delivery)
get_deliveries_by_event_id env event_id = query env (λ now tick db. deliveries_of env event_id db)

-- `ORDER BY generation, attempt_number, id`.
abbrev attempt_order : DeliveryAttempt → DeliveryAttempt → Bool
attempt_order a b =
    if ltb_ℤ a.generation b.generation
    then true
    else if ltb_ℤ b.generation a.generation
    then false
    else if ltb_ℤ a.attempt_number b.attempt_number
    then true
    else if ltb_ℤ b.attempt_number a.attempt_number
    then false
    else leb a.id b.id

unfoldable pub get_attempts_by_event_id : Environment → GoString → Action (List DeliveryAttempt)
get_attempts_by_event_id env event_id =
    query env
      λ now tick db. sort_by attempt_order (select (λ a. str_eq a.event_id event_id) db.attempts)

-- `next_attempt_at <= NOW()`, which is not true of NULL.
abbrev pub is_due : Time → Option Time → Bool
is_due now none = false
is_due now (some t) = leb_ℤ t now

abbrev is_later : Time → Option Time → Bool
is_later now none = false
is_later now (some t) = ltb_ℤ now t

-- `status IN ('retrying', 'throttled')`.
abbrev pub is_waiting : DeliveryStatus → Bool
is_waiting DeliveryStatus.retrying = true
is_waiting DeliveryStatus.throttled = true
is_waiting _ = false

abbrev is_processing : DeliveryStatus → Bool
is_processing s = status_eq s DeliveryStatus.processing

-- The `CASE` under `MIN`.
oldest_of : Time → Delivery → Option Time
oldest_of now d =
    if is_waiting d.status && is_due now d.next_attempt_at
    then d.next_attempt_at
    else if is_processing d.status && is_due now d.processing_deadline
    then d.processing_deadline
    else none

min_time : Option Time → Option Time → Option Time
min_time none b = b
min_time a none = a
min_time (some a) (some b) = if leb_ℤ a b then some a else some b

oldest_due : Time → List Delivery → Option Time
unfolding oldest_of min_time
oldest_due now [] = none
oldest_due now (d ∷ ds) = min_time (oldest_of now d) (oldest_due now ds)

unfoldable pub backlog_stats : Time → List Delivery → RetryBacklogStats
unfolding oldest_due
backlog_stats now rows = record {
  due_count = count_where (λ d. is_waiting d.status && is_due now d.next_attempt_at) rows;
  oldest_due_at = oldest_due now rows;
  expired_processing_count =
      count_where (λ d. is_processing d.status && is_due now d.processing_deadline) rows;
  leased_count =
      count_where (λ d. is_processing d.status && is_later now d.processing_deadline) rows;
}

-- `WHERE status IN ('retrying', 'throttled', 'processing')`.
pub get_retry_backlog_stats : Environment → Action RetryBacklogStats
get_retry_backlog_stats env = query env λ now tick db.
    backlog_stats now (select (λ d. is_waiting d.status || is_processing d.status) db.deliveries)
