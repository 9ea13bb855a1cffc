-- ===== src/Api/Response.antt =====
-- internal/api/handler.go: what the handlers read and answer. The decoding of the request's JSON and
-- the encoding of the answer are the Go library's; a request that cannot be decoded is `none`.
use webhook_service.Prelude.{ℕ, Bool, Option, List, GoString}
use webhook_service.Prelude.Int.{ℤ}
use webhook_service.Domain.Event.{Time, Event, DeliveryAttempt}
use webhook_service.Domain.Delivery.{Delivery, DeliveryStatus}

pub record CreateEventRequest : Type 0 where
  pub id : GoString
  pub type : GoString
  pub source : GoString
  pub payload : GoString

pub record CreateSubscriptionRequest : Type 0 where
  pub id : GoString
  pub url : GoString
  pub event_types : List GoString
  pub secret : Option GoString
  pub max_delivery_rate : ℤ

pub record SubscriptionResponse : Type 0 where
  pub id : GoString
  pub url : GoString
  pub event_types : List GoString
  pub max_delivery_rate : ℤ
  pub created_at : Time
  pub active : Bool

pub record ReplayDeliveryResponse : Type 0 where
  pub id : GoString
  pub event_id : GoString
  pub status : DeliveryStatus
  pub generation : ℤ
  pub scheduled_at : Time

-- The body of an answer: one constructor for each value that a handler encodes.
pub data Body : Type 0 where
  no_content panicked : Body
  message : GoString → Body
  accepted : GoString → GoString → Time → Body
  event_body : Event → Body
  attempts_body : List DeliveryAttempt → Body
  deliveries_body : List Delivery → Body
  subscription_body : SubscriptionResponse → Body
  subscriptions_body : List SubscriptionResponse → Body
  secret_rotated : GoString → Body
  replay_body : ReplayDeliveryResponse → Body

pub record HttpResponse : Type 0 where
  pub status : ℕ
  pub body : Body
