-- ===== src/Domain/Delivery/Lifecycle.antt =====
-- The life of a delivery row: which status each mark leads to, what a mark leaves alone, and when a
-- replay is accepted.
use webhook_service.Prelude.{◌≡◌, ◌≢◌, ◌⊎◌, none, some, arith}
use webhook_service.Prelude.Int.{pos, ◌+ℤ◌}
use webhook_service.Domain.Event.{Time, replay_not_eligible}
use webhook_service.Domain.Delivery.{Delivery, retrying, failed, schedule_replay}

-- What identifies the delivery and what was frozen when it was made.
pub record SameTarget (d e : Delivery) : Type 0 where
  pub same_id : e.id ≡ d.id
  pub same_event : e.event_id ≡ d.event_id
  pub same_subscription : e.subscription_id ≡ d.subscription_id
  pub same_type : e.event_type ≡ d.event_type
  pub same_payload : e.payload ≡ d.payload
  pub same_url : e.subscription_url ≡ d.subscription_url
  pub same_secret : e.subscription_secret ≡ d.subscription_secret
  pub same_rate : e.max_delivery_rate ≡ d.max_delivery_rate
  pub same_max_attempts : e.max_attempts ≡ d.max_attempts
  pub same_created : e.created_at ≡ d.created_at

-- A replay is accepted exactly for a failed delivery. It then keeps the delivery's identity and its
-- frozen destination, adds one to the generation, restarts the attempts at 0, makes the row due at
-- the scheduled instant and clears the error, the delivery instant and the lease; a refused replay
-- changes nothing.
pub schedule_replay_lem :
    (at : Time) (d : Delivery)
    → let (err, d') = schedule_replay at d in
      ((d.status ≡ failed)
        × (err ≡ none)
        × SameTarget d d'
        × (d'.generation ≡ d.generation +ℤ pos 1)
        × (d'.status ≡ retrying)
        × (d'.attempts ≡ pos 0)
        × (d'.next_attempt_at ≡ some at)
        × (d'.last_error ≡ none)
        × (d'.delivered_at ≡ none)
        × (d'.processing_owner ≡ none)
        × (d'.processing_deadline ≡ none))
      ⊎ ((d.status ≢ failed) × (err ≡ some replay_not_eligible) × (d' ≡ d))
unfolding schedule_replay
schedule_replay_lem at d = ground arith
