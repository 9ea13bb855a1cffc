-- ===== src/Domain/Projection.antt =====
-- internal/domain/delivery.go: the event status that the delivery rows of an event project to.
-- `none` in the list of deliveries is a nil pointer.
pub mod Rank
pub mod Bounds
use webhook_service.Prelude.{
  Bool, true, false, Option, none, some, List, [], ◌∷◌, GoString, if◌then◌else◌,
}
use webhook_service.Prelude.Int.{ℤ, pos, ltb_ℤ}
use webhook_service.Domain.Event.{Time, EventStatus}
use webhook_service.Domain.Delivery.{Delivery, DeliveryStatus}

pub record EventProjection : Type 0 where
  pub status : EventStatus
  pub attempts : ℤ
  pub next_attempt_at : Option Time
  pub last_error : Option GoString
  pub delivered_at : Option Time

unfoldable pub sooner : Option Time → Option Time → Bool
sooner current none = false
sooner none (some c) = true
sooner (some t) (some c) = ltb_ℤ c t

-- `deliveredAt == nil || candidate.After(*deliveredAt)`, on a candidate that may be nil.
unfoldable pub later : Option Time → Option Time → Bool
later current none = false
later none (some c) = true
later (some t) (some c) = ltb_ℤ t c

-- The variables of the loop: the projection, `allDelivered` and `deliveredAt`.
pub record Progress : Type 0 where
  pub projection : EventProjection
  pub all_delivered : Bool
  pub delivered_at : Option Time

-- The `switch` on the delivery's status, as it updates the projection's status.
unfoldable pub join_status : EventStatus → DeliveryStatus → EventStatus
join_status s DeliveryStatus.processing = EventStatus.processing
join_status EventStatus.processing DeliveryStatus.retrying = EventStatus.processing
join_status _ DeliveryStatus.retrying = EventStatus.retrying
join_status EventStatus.processing DeliveryStatus.throttled = EventStatus.processing
join_status EventStatus.retrying DeliveryStatus.throttled = EventStatus.retrying
join_status _ DeliveryStatus.throttled = EventStatus.throttled
join_status EventStatus.processing DeliveryStatus.pending = EventStatus.processing
join_status EventStatus.retrying DeliveryStatus.pending = EventStatus.retrying
join_status EventStatus.throttled DeliveryStatus.pending = EventStatus.throttled
join_status _ DeliveryStatus.pending = EventStatus.pending
join_status EventStatus.delivered DeliveryStatus.failed = EventStatus.failed
join_status s DeliveryStatus.failed = s
join_status s DeliveryStatus.delivered = s

-- The `switch`, as it updates `allDelivered`.
abbrev pub still_all_delivered : Bool → DeliveryStatus → Bool
still_all_delivered b DeliveryStatus.delivered = b
still_all_delivered b _ = false

-- One round of the loop, for a delivery that is not nil.
unfoldable pub project_delivery : Progress → Delivery → Progress
unfolding sooner later join_status
project_delivery s d = record {
  projection = record {
    status = join_status s.projection.status d.status;
    attempts = if ltb_ℤ s.projection.attempts d.attempts then d.attempts else s.projection.attempts;
    next_attempt_at =
        if sooner s.projection.next_attempt_at d.next_attempt_at
        then d.next_attempt_at
        else s.projection.next_attempt_at;
    last_error = elim d.last_error [ none ↦ s.projection.last_error | some e ↦ some e ];
    delivered_at = s.projection.delivered_at;
  };
  all_delivered = still_all_delivered s.all_delivered d.status;
  delivered_at = if later s.delivered_at d.delivered_at then d.delivered_at else s.delivered_at;
}

unfoldable pub project_loop : Progress → List (Option Delivery) → Progress
project_loop s [] = s
project_loop s (none ∷ ds) = project_loop s ds
project_loop s (some d ∷ ds) = project_loop (project_delivery s d) ds

abbrev pub start : Progress
start = record {
  projection = record {
    status = EventStatus.delivered;
    attempts = pos 0;
    next_attempt_at = none;
    last_error = none;
    delivered_at = none;
  };
  all_delivered = true;
  delivered_at = none;
}

-- What follows the loop.
unfoldable pub finish : Progress → EventProjection
finish s =
    if s.all_delivered
    then record (s.projection) { status = EventStatus.delivered; delivered_at = s.delivered_at }
    else s.projection

-- `now` is the reading of `time.Now()` on an empty list.
unfoldable pub project_event : Time → List (Option Delivery) → EventProjection
unfolding project_loop finish
project_event now [] = record {
  status = EventStatus.delivered;
  attempts = pos 0;
  next_attempt_at = none;
  last_error = none;
  delivered_at = some now;
}
project_event now (d ∷ ds) = finish (project_loop start (d ∷ ds))
