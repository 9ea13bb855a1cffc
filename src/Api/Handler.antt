-- ===== src/Api/Handler.antt =====
-- internal/api/handler.go: the handlers, as functions of the decoded request to the answer and the
-- new world. Logging and the metrics are left out.
use webhook_service.Prelude.{
  ℕ, Bool, true, false, ◌||◌, not, Option, none, some, List, [], ◌∷◌, map, GoString, lit, is_empty,
  length, leb, if◌then◌else◌,
}
use webhook_service.Prelude.Int.{pos, leb_ℤ}
use webhook_service.Domain.Event.{Err, not_found, replay_not_eligible, Event, DeliveryAttempt}
use webhook_service.Domain.Subscription.{Subscription, default_subscription_max_delivery_rate}
use webhook_service.Domain.Delivery.{Delivery}
use webhook_service.Repository.World.{World, Environment, Result, ok, err, advance}
use webhook_service.Repository.Reads.{
  get_by_id, get_attempts_by_event_id, get_deliveries_by_event_id,
}
use webhook_service.Repository.Replay.{replay_failed_delivery}
use webhook_service.Repository.Subscriptions.{create, get_active, delete, update_secret}
use webhook_service.Kafka.Message.{EventMessage}
use webhook_service.Api.Response.{
  CreateEventRequest, CreateSubscriptionRequest, SubscriptionResponse, HttpResponse, no_content,
  panicked, message, accepted, event_body, attempts_body, deliveries_body, subscription_body,
  subscriptions_body, secret_rotated, replay_body,
}

abbrev respond_error : ℕ → GoString → HttpResponse
respond_error status text = record { status = status; body = message text }

-- The answer to a result, given the answers to its errors.
abbrev answer :
    {A : Type 0}
    → (Err → HttpResponse)
    → (A → HttpResponse)
    → Result A × World
    → HttpResponse × World
answer failed good (ok a, w) = (good a, w)
answer failed good (err e, w) = (failed e, w)

abbrev pub internal_error : GoString → Err → HttpResponse
internal_error text e = respond_error 500 text

abbrev pub missing_or : GoString → GoString → Err → HttpResponse
missing_or missing text not_found = respond_error 404 missing
missing_or missing text _ = respond_error 500 text

-- `json.Decode`, then `req.ID == "" || req.Type == "" || req.Source == ""`.
unfoldable pub event_complaint : CreateEventRequest → Bool
event_complaint req = is_empty req.id || is_empty req.type || is_empty req.source

unfoldable pub message_of : CreateEventRequest → EventMessage
message_of req = record {
  id = req.id;
  type = req.type;
  source = req.source;
  payload = req.payload;
  max_attempts = pos 5;
  attempt = pos 0;
  last_error = lit "";
  next_attempt_at = none;
  trace_id = lit "";
}

-- `publisher.Publish` answers whether it succeeded. The last part of the result is the message that
-- it was given.
unfoldable pub create_event :
    Environment
    → (ℕ → EventMessage → Bool)
    → Option CreateEventRequest
    → World
    → HttpResponse × World × Option EventMessage
unfolding event_complaint message_of
create_event env publish none w = (respond_error 400 (lit "invalid request body"), w, none)
create_event env publish (some req) w =
    if event_complaint req
    then (respond_error 400 (lit "id, type, and source are required"), w, none)
    else if publish w.tick (message_of req)
    then (
      record { status = 202; body = accepted req.id (lit "pending") (env.now w.tick) },
      advance w,
      some (message_of req),
    )
    else (respond_error 500 (lit "failed to publish event"), w, some (message_of req))

unfoldable pub get_event : Environment → GoString → World → HttpResponse × World
get_event env [] w = (respond_error 400 (lit "event id is required"), w)
get_event env (c ∷ id) w =
    answer (missing_or (lit "event not found") (lit "failed to get event"))
      (λ (e : Event). record { status = 200; body = event_body e }) (get_by_id env (c ∷ id) w)

unfoldable pub get_event_attempts : Environment → GoString → World → HttpResponse × World
get_event_attempts env [] w = (respond_error 400 (lit "event id is required"), w)
get_event_attempts env (c ∷ id) w =
    answer (internal_error (lit "failed to get attempts"))
      (λ (rows : List DeliveryAttempt). record { status = 200; body = attempts_body rows })
      (get_attempts_by_event_id env (c ∷ id) w)

unfoldable pub get_event_deliveries : Environment → GoString → World → HttpResponse × World
get_event_deliveries env [] w = (respond_error 400 (lit "event id is required"), w)
get_event_deliveries env (c ∷ id) w =
    answer (internal_error (lit "failed to get deliveries"))
      (λ (ds : List Delivery). record { status = 200; body = deliveries_body ds })
      (get_deliveries_by_event_id env (c ∷ id) w)

abbrev pub max_subscription_secret_bytes : ℕ
max_subscription_secret_bytes = 4096

abbrev pub bad_secret : GoString → Bool
bad_secret s = is_empty s || not (leb (length s) max_subscription_secret_bytes)

abbrev pub bad_optional_secret : Option GoString → Bool
bad_optional_secret none = false
bad_optional_secret (some s) = bad_secret s

abbrev no_types : List GoString → Bool
no_types [] = true
no_types (_ ∷ _) = false

unfoldable pub subscription_complaint : CreateSubscriptionRequest → Bool
subscription_complaint req = is_empty req.id || is_empty req.url || no_types req.event_types

unfoldable pub subscription_response : Subscription → SubscriptionResponse
subscription_response s = record {
  id = s.id;
  url = s.url;
  event_types = s.event_types;
  max_delivery_rate = s.max_delivery_rate;
  created_at = s.created_at;
  active = s.active;
}

-- The subscription that a request stands for.
unfoldable pub subscription_of : Environment → CreateSubscriptionRequest → World → Subscription
subscription_of env req w = record {
  id = req.id;
  url = req.url;
  event_types = req.event_types;
  secret = req.secret;
  max_delivery_rate =
      if leb_ℤ req.max_delivery_rate (pos 0)
      then default_subscription_max_delivery_rate
      else req.max_delivery_rate;
  created_at = env.now w.tick;
  active = true;
}

unfoldable pub create_subscription :
    Environment → Option CreateSubscriptionRequest → World → HttpResponse × World
unfolding subscription_complaint subscription_response subscription_of
create_subscription env none w = (respond_error 400 (lit "invalid request body"), w)
create_subscription env (some req) w =
    if subscription_complaint req
    then (respond_error 400 (lit "id, url, and event_types are required"), w)
    else if bad_optional_secret req.secret
    then (respond_error 400 (lit "secret must be between 1 and 4096 bytes"), w)
    else answer (internal_error (lit "failed to create subscription"))
        (λ (u : Unit {0}). record {
          status = 201;
          body = subscription_body (subscription_response (subscription_of env req w));
        })
        (create env (subscription_of env req w) (advance w))

unfoldable pub get_subscriptions : Environment → World → HttpResponse × World
unfolding subscription_response
get_subscriptions env w =
    answer (internal_error (lit "failed to get subscriptions"))
      (λ (subs : List Subscription). record {
        status = 200;
        body = subscriptions_body (map subscription_response subs);
      })
      (get_active env w)

unfoldable pub rotate_subscription_secret :
    Environment → GoString → Option GoString → World → HttpResponse × World
rotate_subscription_secret env [] secret w =
    (respond_error 400 (lit "subscription id is required"), w)
rotate_subscription_secret env (c ∷ id) none w = (respond_error 400 (lit "invalid request body"), w)
rotate_subscription_secret env (c ∷ id) (some secret) w =
    if bad_secret secret
    then (respond_error 400 (lit "secret must be between 1 and 4096 bytes"), w)
    else answer
        (missing_or (lit "subscription not found") (lit "failed to rotate subscription secret"))
        (λ (u : Unit {0}). record { status = 200; body = secret_rotated (c ∷ id) })
        (update_secret env (c ∷ id) secret w)

abbrev replay_error : Err → HttpResponse
replay_error not_found = respond_error 404 (lit "delivery not found")
replay_error replay_not_eligible = respond_error 409 (lit "delivery is not failed")
replay_error _ = respond_error 500 (lit "failed to replay delivery")

-- `*delivery.NextAttemptAt` of a nil pointer panics, and the router's `Recoverer` answers 500.
abbrev replayed : Delivery → HttpResponse
replayed d = elim d.next_attempt_at [
  | none ↦ record { status = 500; body = panicked }
  | some at ↦ record {
    status = 202;
    body = replay_body record {
      id = d.id;
      event_id = d.event_id;
      status = d.status;
      generation = d.generation;
      scheduled_at = at;
    };
  }
]

unfoldable pub replay_delivery : Environment → GoString → World → HttpResponse × World
replay_delivery env [] w = (respond_error 400 (lit "delivery id is required"), w)
replay_delivery env (c ∷ id) w =
    answer replay_error replayed (replay_failed_delivery env (c ∷ id) (env.now w.tick) (advance w))

unfoldable pub delete_subscription : Environment → GoString → World → HttpResponse × World
delete_subscription env [] w = (respond_error 400 (lit "subscription id is required"), w)
delete_subscription env (c ∷ id) w =
    answer (missing_or (lit "subscription not found") (lit "failed to delete subscription"))
      (λ (u : Unit {0}). record { status = 204; body = no_content }) (delete env (c ∷ id) w)
