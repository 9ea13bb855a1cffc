-- ===== src/Retry/Poller/Lag.antt =====
-- internal/retry/poller.go: what `recordSchedulingLag` reports of the deliveries that a claim
-- returned.
use webhook_service.Prelude.{◌≡◌, true, [], ◌∷◌, GoString, arith}
use webhook_service.Prelude.Int.{ℤ, pos, ◌+ℤ◌, ◌-ℤ◌, leb_ℤ}
use webhook_service.Domain.Event.{Time, Duration}
use webhook_service.Domain.Delivery.{Delivery, DeliveryStatus}
use webhook_service.Repository.World.{World, Environment}
use webhook_service.Repository.Claim.{claim_of, lease, postgres_interval, from_microseconds}
use webhook_service.Retry.Poller.{not_negative, scheduling_lag, record_scheduling_lag, scheduled_at}

no_lag : (a t : ℤ) → leb_ℤ a t ≡ true → not_negative (a -ℤ t) ≡ pos 0
unfolding ◌-ℤ◌
no_lag a t h = ground (arith, h)

-- A row whose lease had run out is reported with no lag, however long ago that was: the claim has
-- given it a new deadline already, and the lag is measured from that one. It holds while the new
-- lease lasts by the poller's clock.
pub record_scheduling_lag-reclaimed :
    (env : Environment) (now : Time) (owner : GoString) (duration : Duration) (d : Delivery)
    (w : World)
    → d.status ≡ DeliveryStatus.processing
    → leb_ℤ (env.now w.tick) (now +ℤ from_microseconds (postgres_interval duration)) ≡ true
    → (record_scheduling_lag env (claim_of now owner duration d) w).0 ≡ scheduling_lag (pos 0) ∷ []
unfolding record_scheduling_lag scheduled_at claim_of lease
record_scheduling_lag-reclaimed env now owner duration d w leased lasts = ground (
  arith,
  leased,
  no_lag (env.now w.tick) (now +ℤ from_microseconds (postgres_interval duration)) lasts,
)
