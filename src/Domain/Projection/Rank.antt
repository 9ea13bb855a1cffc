-- ===== src/Domain/Projection/Rank.antt =====
-- The documented rule of the projection (docs/spec.md): the status of the event is the status of
-- the delivery that ranks highest.
use Prim.Native.Nat.{max}
use webhook_service.Prelude.{
  ℕ, zero, suc, ◌≡◌, refl, ◌≢◌, true, false, ◌==◌, Option, none, some, List, [], ◌∷◌, arith, sym,
  ap, ◌∙◌, if◌then◌else◌,
}
use webhook_service.Domain.Event.{Time, EventStatus}
use webhook_service.Domain.Delivery.{Delivery, DeliveryStatus}
use webhook_service.Domain.Projection.{
  Progress, join_status, project_delivery, project_loop, start, finish, project_event,
}

-- processing > retrying > throttled > pending > failed > delivered.
abbrev pub delivery_rank : DeliveryStatus → ℕ
delivery_rank DeliveryStatus.delivered = 0
delivery_rank DeliveryStatus.failed = 1
delivery_rank DeliveryStatus.pending = 2
delivery_rank DeliveryStatus.throttled = 3
delivery_rank DeliveryStatus.retrying = 4
delivery_rank DeliveryStatus.processing = 5

-- The event status at a rank.
abbrev pub status_at : ℕ → EventStatus
status_at zero = EventStatus.delivered
status_at (suc zero) = EventStatus.failed
status_at (suc (suc zero)) = EventStatus.pending
status_at (suc (suc (suc zero))) = EventStatus.throttled
status_at (suc (suc (suc (suc zero)))) = EventStatus.retrying
status_at (suc (suc (suc (suc (suc _))))) = EventStatus.processing

-- The highest rank in a list of deliveries; a nil delivery counts for nothing.
abbrev pub top_rank : List (Option Delivery) → ℕ
top_rank [] = 0
top_rank (none ∷ ds) = top_rank ds
top_rank (some d ∷ ds) = max (delivery_rank d.status) (top_rank ds)

-- The rank of the status that the loop keeps.
abbrev rank : EventStatus → ℕ
rank EventStatus.failed = 1
rank EventStatus.pending = 2
rank EventStatus.throttled = 3
rank EventStatus.retrying = 4
rank EventStatus.processing = 5
rank _ = 0

status_at-rank : (s : EventStatus) → s ≢ EventStatus.unset → status_at (rank s) ≡ s
status_at-rank EventStatus.failed h = refl
status_at-rank EventStatus.unset h = absurd (h refl)
status_at-rank _ h = refl

rank-join_status :
    (s : EventStatus) (d : DeliveryStatus)
    → s ≢ EventStatus.unset
    → (rank (join_status s d) ≡ max (rank s) (delivery_rank d))
      × (join_status s d ≢ EventStatus.unset)
unfolding join_status
rank-join_status EventStatus.unset d h = absurd (h refl)
rank-join_status EventStatus.failed d h = ground arith
rank-join_status _ d h = ground arith

rank-project_delivery :
    (s : Progress) (d : Delivery)
    → s.projection.status ≢ EventStatus.unset
    → let s' = project_delivery s d in
      (rank s'.projection.status ≡ max (rank s.projection.status) (delivery_rank d.status))
      × (s'.projection.status ≢ EventStatus.unset)
unfolding project_delivery
rank-project_delivery s d h = rank-join_status s.projection.status d.status h

-- The loop's status has the highest rank met so far.
rank-project_loop :
    (s : Progress) (ds : List (Option Delivery))
    → s.projection.status ≢ EventStatus.unset
    → (rank (project_loop s ds).projection.status ≡ max (rank s.projection.status) (top_rank ds))
      × ((project_loop s ds).projection.status ≢ EventStatus.unset)
unfolding project_loop
rank-project_loop s [] h = (omega arith, h)
rank-project_loop s (none ∷ ds) h = rank-project_loop s ds h
rank-project_loop s (some d ∷ ds) h =
    let j = rank-project_delivery s d h in
    let r = rank-project_loop (project_delivery s d) ds j.1 in (omega (arith, j.0, r.0), r.1)

-- `allDelivered` says that every rank met so far is the lowest.
all_delivered-project_loop :
    (s : Progress) (ds : List (Option Delivery))
    → (project_loop s ds).all_delivered ≡ (if top_rank ds == 0 then s.all_delivered else false)
unfolding project_loop project_delivery
all_delivered-project_loop s [] = refl
all_delivered-project_loop s (none ∷ ds) = all_delivered-project_loop s ds
all_delivered-project_loop s (some d ∷ ds) =
    ground (arith, all_delivered-project_loop (project_delivery s d) ds)

finish_status :
    (s : Progress) (n : ℕ)
    → s.projection.status ≢ EventStatus.unset
    → rank s.projection.status ≡ n
    → s.all_delivered ≡ (if n == 0 then true else false)
    → (finish s).status ≡ status_at n
unfolding finish
finish_status s zero set r a = rw a
finish_status s (suc n) set r a =
    let e : s.projection.status ≡ status_at (suc n) =
      sym (status_at-rank s.projection.status set) ∙ ap status_at r in
    ground (arith, e)

-- The projected status is the one at the highest rank among the deliveries, and at the lowest rank,
-- `delivered`, where there is none: processing > retrying > throttled > pending > failed > delivered.
pub project_event-status :
    (now : Time) (ds : List (Option Delivery))
    → (project_event now ds).status ≡ status_at (top_rank ds)
unfolding project_event
project_event-status now [] = refl
project_event-status now (d ∷ ds) =
    let r = rank-project_loop start (d ∷ ds) (cc) in
    finish_status (project_loop start (d ∷ ds)) (top_rank (d ∷ ds)) r.1 (omega (arith, r.0))
      (all_delivered-project_loop start (d ∷ ds))
