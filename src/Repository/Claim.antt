-- ===== src/Repository/Claim.antt =====
-- internal/repository/postgres/event.go: the two claims. A row that is claimed belongs to its owner
-- until the deadline.
pub mod Granted
pub mod Exclusion
use webhook_service.Prelude.{
  ℕ, suc, ◌*◌, Bool, true, false, not, ◌&&◌, none, some, List, [], ◌∷◌, map, GoString, str_eq,
  if◌then◌else◌, select, update_where, exists, take,
}
use webhook_service.Prelude.Int.{
  ℤ, pos, negsuc, ◌+ℤ◌, leb_ℤ, ltb_ℤ, int_eq, pos_part, div_trunc, sub_ℕ,
}
use webhook_service.Domain.Event.{Time, Duration}
use webhook_service.Domain.Delivery.{Delivery, DeliveryStatus, status_eq}
use webhook_service.Repository.World.{Database, Environment, Action, pure, exec}
use webhook_service.Repository.Sorting.{sort_by}
use webhook_service.Repository.Reads.{ClaimedDelivery, is_due}

-- `postgresInterval`, as the number of microseconds that it prints.
unfoldable pub postgres_interval : Duration → ℤ
postgres_interval d =
    let microseconds = div_trunc d 1000 in
    if not (leb_ℤ d (pos 0)) && int_eq microseconds (pos 0) then pos 1 else microseconds

-- An interval of microseconds, in nanoseconds.
abbrev pub from_microseconds : ℤ → Duration
from_microseconds (pos n) = pos (n * 1000)
from_microseconds (negsuc n) = sub_ℕ 0 (suc n * 1000)

-- The rows that a claim may take.
unfoldable pub claimable : Time → Delivery → Bool
claimable now d = elim d.status [
  | DeliveryStatus.pending ↦ true
  | DeliveryStatus.processing ↦ is_due now d.processing_deadline
  | DeliveryStatus.retrying ↦ is_due now d.next_attempt_at
  | DeliveryStatus.throttled ↦ is_due now d.next_attempt_at
  | _ ↦ false
]

-- `COALESCE(next_attempt_at, processing_deadline, created_at)`.
unfoldable pub due_at : Delivery → Time
due_at d = elim d.next_attempt_at [
  | some t ↦ t
  | none ↦ elim d.processing_deadline [ some t ↦ t | none ↦ d.created_at ]
]

-- `ORDER BY COALESCE(…), created_at`.
unfoldable pub due_order : Delivery → Delivery → Bool
unfolding due_at
due_order d e =
    if ltb_ℤ (due_at d) (due_at e)
    then true
    else if ltb_ℤ (due_at e) (due_at d)
    then false
    else leb_ℤ d.created_at e.created_at

-- `ORDER BY event_id, COALESCE(…), created_at`.
unfoldable pub event_due_order : (GoString → GoString → Bool) → Delivery → Delivery → Bool
unfolding due_order
event_due_order collate d e =
    if str_eq d.event_id e.event_id then due_order d e else collate d.event_id e.event_id

-- `SET status = 'processing', …`.
unfoldable pub lease : Time → GoString → Duration → Delivery → Delivery
lease now owner duration d = record d {
  status = DeliveryStatus.processing;
  processing_owner = some owner;
  processing_deadline = some (now +ℤ from_microseconds (postgres_interval duration));
  updated_at = now;
}

-- The rows of the `WITH candidates`: at most `limit` of those that pass, in order.
unfoldable pub candidates :
    (Delivery → Bool) → (Delivery → Delivery → Bool) → ℕ → List Delivery → List Delivery
candidates passes order limit rows = take limit (sort_by order (select passes rows))

abbrev pub is_candidate : List Delivery → Delivery → Bool
is_candidate chosen d = exists (λ c. str_eq c.id d.id) chosen

unfoldable pub claim_of : Time → GoString → Duration → Delivery → ClaimedDelivery
unfolding lease
claim_of now owner duration d = record {
  delivery = lease now owner duration d;
  reclaimed = status_eq d.status DeliveryStatus.processing;
}

-- The `UPDATE … FROM candidates … RETURNING` of both claims.
unfoldable pub claim_rows :
    Time → GoString → Duration → List Delivery → Database → List ClaimedDelivery × Database
claim_rows now owner duration chosen db = (
  map (claim_of now owner duration) chosen,
  record db {
    deliveries = update_where (is_candidate chosen) (lease now owner duration) db.deliveries;
  },
)

-- PostgreSQL refuses a negative `LIMIT`.
unfoldable pub claim_deliveries :
    Environment → GoString → Duration → ℤ → Action (List ClaimedDelivery)
claim_deliveries env owner duration limit = exec env λ now tick db.
    if ltb_ℤ limit (pos 0)
    then none
    else some (
        claim_rows now owner duration
          (candidates (λ d. claimable now d && not (env.locked tick d.id)) due_order
            (pos_part limit) db.deliveries)
          db)

abbrev pub is_one_of : List GoString → GoString → Bool
is_one_of ids id = exists (λ i. str_eq i id) ids

unfoldable pub claim_event_deliveries :
    Environment → List GoString → GoString → Duration → ℤ → Action (List ClaimedDelivery)
claim_event_deliveries env [] owner duration limit = pure []
claim_event_deliveries env (id ∷ ids) owner duration limit =
    if leb_ℤ limit (pos 0)
    then pure []
    else exec env λ now tick db. some (
        claim_rows now owner duration
          (candidates
            (λ d. is_one_of (id ∷ ids) d.event_id && claimable now d && not (env.locked tick d.id))
            (event_due_order env.collate) (pos_part limit) db.deliveries)
          db)
