-- ===== src/Kafka/Handler.antt =====
-- internal/kafka/handler.go: what becomes of a delivery after its attempt, and the handling of a
-- list of claimed deliveries and of a batch of messages.
pub mod Applied
pub mod Rounds
pub mod Stored
pub mod Batch
pub mod Keeps
pub mod Options
pub mod Remains
use webhook_service.Prelude.{
  ℕ, zero, suc, ◌+◌, Option, none, some, List, [], ◌∷◌, map, GoString, str_eq, is_empty, length,
  exists, if◌then◌else◌,
}
use webhook_service.Prelude.Int.{ℤ, pos, ◌+ℤ◌, leb_ℤ, int_eq}
use webhook_service.Domain.Event.{Time, Duration, Event, EventStatus}
use webhook_service.Domain.Delivery.{
  Delivery, DeliveryStatus, mark_as_delivered, mark_as_retrying, mark_as_throttled, mark_as_failed,
}
use webhook_service.Domain.Projection.{project_event}
use webhook_service.Repository.World.{
  Environment, delivered, failed, retrying, Action, ◌>>=◌, ◌>>◌, pure, time_now,
}
use webhook_service.Repository.Reads.{ClaimedDelivery, get_deliveries_by_event_id}
use webhook_service.Repository.Initialize.{initialize_event_deliveries}
use webhook_service.Repository.Claim.{claim_event_deliveries}
use webhook_service.Repository.Outcome.{persist_claimed_delivery_outcome}
use webhook_service.Repository.Subscriptions.{SubscriptionMap, get_by_event_types, lookup_subs}
use webhook_service.Kafka.Message.{EventMessage}
use webhook_service.Kafka.Delivery.{
  success, throttled_outcome, retry, failure, DeliveryResult, DeliveryHandler, observe,
  deliver_delivery,
}

-- The delay before the next attempt, at the moment `tick` of the policy's random jitter.
unfoldable pub retry_delay : DeliveryHandler → ℕ → DeliveryResult → ℤ → Duration
retry_delay h tick r attempt =
    if leb_ℤ r.retry_after (pos 0) then h.delay tick attempt else r.retry_after

-- `time.Now().Add(result.retryDelay(…))`.
unfoldable pub next_attempt_time : Environment → DeliveryHandler → DeliveryResult → ℤ → Action Time
unfolding retry_delay
next_attempt_time env h r attempt = do
  now ← time_now env
  λ w. pure (now +ℤ retry_delay h w.tick r attempt) w

-- `if len(result.attempts) > 0 { delivery.Attempts++ }`.
abbrev pub count_attempt : DeliveryResult → Delivery → Delivery
count_attempt r d = elim r.attempts [ [] ↦ d | _ ∷ _ ↦ record d { attempts = d.attempts +ℤ pos 1 } ]

unfoldable pub apply_delivery_result :
    Environment → DeliveryHandler → Delivery → DeliveryResult → Action Delivery
apply_delivery_result env h d r = elim r.outcome [
  | success ↦ do
    observe delivered
    now ← time_now env
    pure (mark_as_delivered (elim r.delivered_at [ none ↦ now | some t ↦ t ]) (count_attempt r d))
  | retry ↦ do
    observe retrying
    next ← next_attempt_time env h r (d.attempts +ℤ pos 1)
    now ← time_now env
    pure (mark_as_retrying now next r.last_error d)
  | throttled_outcome ↦ do
    next ← next_attempt_time env h r (d.attempts +ℤ pos 1)
    now ← time_now env
    pure (mark_as_throttled now next r.last_error d)
  | failure ↦ do
    observe failed
    now ← time_now env
    pure (mark_as_failed now r.last_error (count_attempt r d))
]

-- The three lists that `ProcessDeliveries` returns.
pub record Processed : Type 0 where
  pub delivered : List Delivery
  pub retrying : List Delivery
  pub failed : List Delivery

-- The `switch` that files a delivery under its status.
unfoldable pub file : Delivery → Processed → Processed
file d p = elim d.status [
  | DeliveryStatus.delivered ↦ record p { delivered = d ∷ p.delivered }
  | DeliveryStatus.retrying ↦ record p { retrying = d ∷ p.retrying }
  | DeliveryStatus.throttled ↦ record p { retrying = d ∷ p.retrying }
  | DeliveryStatus.failed ↦ record p { failed = d ∷ p.failed }
  | _ ↦ p
]

-- The trace ids by event, and the one of the context.
pub record Traces : Type 0 where
  pub by_event : List (GoString × GoString)
  pub context : GoString

abbrev lookup_trace : GoString → List (GoString × GoString) → GoString
lookup_trace id [] = []
lookup_trace id ((i, t) ∷ m) = let rest = lookup_trace id m in if str_eq i id then t else rest

abbrev pub trace_of : Traces → GoString → GoString
trace_of traces event_id =
    let t = lookup_trace event_id traces.by_event in if is_empty t then traces.context else t

-- One delivery: the attempt, its outcome, and the write.
unfoldable pub process_delivery :
    Environment → DeliveryHandler → Traces → Delivery → Action Delivery
process_delivery env h traces d = do
  r ← deliver_delivery env h (trace_of traces d.event_id) d
  d' ← apply_delivery_result env h d r
  persist_claimed_delivery_outcome env (some d') r.attempts
  pure d'

-- The loop; `none` is a nil pointer. Of a run that ends in an error only the error is kept: both
-- callers drop the lists then.
unfoldable pub process_deliveries :
    Environment → DeliveryHandler → Traces → List (Option Delivery) → Action Processed
process_deliveries env h traces [] = pure (record { delivered = []; retrying = []; failed = [] })
process_deliveries env h traces (none ∷ ds) = process_deliveries env h traces ds
process_deliveries env h traces (some d ∷ ds) = do
  d' ← process_delivery env h traces d
  p ← process_deliveries env h traces ds
  pure (file d' p)

unfoldable pub event_from_message : Time → EventMessage → Event
event_from_message now msg = record {
  id = msg.id;
  type = msg.type;
  source = msg.source;
  payload = msg.payload;
  status = EventStatus.pending;
  attempts = msg.attempt;
  max_attempts = msg.max_attempts;
  next_attempt_at = none;
  last_error = none;
  created_at = now;
  updated_at = now;
  delivered_at = none;
}

-- `if msg.MaxAttempts == 0 { … }`.
unfoldable pub with_max_attempts : DeliveryHandler → EventMessage → EventMessage
with_max_attempts h msg =
    if int_eq msg.max_attempts (pos 0)
    then record msg { max_attempts = h.policy_max_attempts }
    else msg

-- The keys of the map of event types; Go's order of a map's keys is not fixed.
unfoldable pub event_types : List EventMessage → List GoString
event_types [] = []
event_types (m ∷ ms) =
    let rest = event_types ms in if exists (λ t. str_eq t m.type) rest then rest else m.type ∷ rest

-- `traceByEventID`: a later message with the same id comes first in a lookup.
unfoldable pub traces_of :
    List EventMessage → List (GoString × GoString) → List (GoString × GoString)
traces_of [] m = m
traces_of (msg ∷ msgs) m =
    traces_of msgs (if is_empty msg.trace_id then m else (msg.id, msg.trace_id) ∷ m)

-- The loop that initialises each event, with the number of delivery rows.
unfoldable pub initialize_events : Environment → SubscriptionMap → List EventMessage → Action ℕ
unfolding event_from_message
initialize_events env subs [] = pure 0
initialize_events env subs (msg ∷ msgs) = do
  now ← time_now env
  rows ←
      initialize_event_deliveries env (some (event_from_message now msg))
        (map some (lookup_subs msg.type subs))
  n ← initialize_events env subs msgs
  pure (length rows + n)

abbrev delivery_of : ClaimedDelivery → Option Delivery
delivery_of c = some c.delivery

abbrev ids_of : List EventMessage → List GoString
ids_of ms = map (λ (m : EventMessage). m.id) ms

-- The claim and the deliveries, where the events have any.
unfoldable pub claim_and_process :
    Environment → DeliveryHandler → Traces → List GoString → ℕ → Action (Unit {0})
claim_and_process env h traces ids zero = pure tt
claim_and_process env h traces ids (suc n) = do
  claimed ← claim_event_deliveries env ids h.instance_id h.lease_duration (pos (suc n))
  _ ← process_deliveries env h traces (map delivery_of claimed)
  pure tt

pub record Categories : Type 0 where
  pub successes : List EventMessage
  pub retries : List EventMessage
  pub failures : List EventMessage

-- `eventsByID`: the last message with an id.
unfoldable pub message_by_id : GoString → List EventMessage → Option EventMessage
message_by_id id [] = none
message_by_id id (m ∷ ms) =
    let rest = message_by_id id ms in
    elim rest [ some later ↦ some later | none ↦ if str_eq m.id id then some m else none ]

-- The `switch` on the projected status.
unfoldable pub categorize : EventStatus → EventMessage → Categories → Categories
categorize EventStatus.delivered m c = record c { successes = m ∷ c.successes }
categorize EventStatus.retrying m c = record c { retries = m ∷ c.retries }
categorize EventStatus.throttled m c = record c { retries = m ∷ c.retries }
categorize EventStatus.pending m c = record c { retries = m ∷ c.retries }
categorize EventStatus.processing m c = record c { retries = m ∷ c.retries }
categorize EventStatus.failed m c = record c { failures = m ∷ c.failures }
categorize EventStatus.unset m c = c

abbrev or_itself : EventMessage → Option EventMessage → EventMessage
or_itself msg none = msg
or_itself msg (some m) = m

unfoldable pub categorize_messages :
    Environment → List EventMessage → List EventMessage → Action Categories
unfolding categorize message_by_id
categorize_messages env batch [] = pure (record { successes = []; retries = []; failures = [] })
categorize_messages env batch (msg ∷ msgs) = do
  rows ← get_deliveries_by_event_id env msg.id
  now ← time_now env
  c ← categorize_messages env batch msgs
  pure (
      categorize (project_event now (map some rows)).status
        (or_itself msg (message_by_id msg.id batch)) c)

-- The batch, after the messages have their `MaxAttempts`.
unfoldable pub process_messages :
    Environment → DeliveryHandler → GoString → List EventMessage → Action Categories
process_messages env h context msgs = do
  subs ← get_by_event_types env (event_types msgs)
  total ← initialize_events env subs msgs
  claim_and_process env h (record { by_event = traces_of msgs []; context = context }) (ids_of msgs)
      total
  categorize_messages env msgs msgs

unfoldable pub process_batch :
    Environment → DeliveryHandler → GoString → List EventMessage → Action Categories
unfolding with_max_attempts event_types traces_of process_messages
process_batch env h context [] = pure (record { successes = []; retries = []; failures = [] })
process_batch env h context (m ∷ ms) =
    process_messages env h context (map (with_max_attempts h) (m ∷ ms))
