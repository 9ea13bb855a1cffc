-- ===== src/System.antt =====
-- Any number of instances of the API and of the worker on one database: the repository operations
-- that they perform, one after another, in any order. internal/kafka/handler.go and
-- internal/retry/poller.go claim and persist, internal/api/handler.go initialises, replays and keeps
-- the subscriptions, and internal/retention/cleaner.go deletes. Each step has an environment of its
-- own, so clocks, failures and locks differ from step to step.
pub mod Invariant
pub mod Progress
use webhook_service.Prelude.{◌≡◌, Option, List, [], some, GoString}
use webhook_service.Prelude.Int.{ℤ}
use webhook_service.Domain.Event.{Time, Duration, Event}
use webhook_service.Domain.Subscription.{Subscription}
use webhook_service.Domain.Delivery.{Delivery}
use webhook_service.Repository.World.{World, Environment, ok}
use webhook_service.Repository.Initialize.{initialize_event_deliveries}
use webhook_service.Repository.Claim.{claim_deliveries, claim_event_deliveries}
use webhook_service.Repository.Outcome.{persist_claimed_delivery_outcome}
use webhook_service.Repository.Replay.{replay_failed_delivery}
use webhook_service.Repository.Retention.{redact_attempt_bodies, delete_terminal_events}
use webhook_service.Repository.Subscriptions.{create, delete, update_secret}
use webhook_service.Kafka.Message.{EventMessage}
use webhook_service.Kafka.Delivery.{DeliveryHandler, DeliveryResult}
use webhook_service.Kafka.Handler.{Traces, apply_delivery_result, process_deliveries, process_batch}

pub data Step : World → World → Type 0 where
  initialized :
      (env : Environment) (event : Option Event) (subs : List (Option Subscription)) (w : World)
      → Step w (initialize_event_deliveries env event subs w).1
  claimed :
      (env : Environment) (owner : GoString) (duration : Duration) (limit : ℤ) (w : World)
      → Step w (claim_deliveries env owner duration limit w).1
  claimed_of_events :
      (env : Environment) (ids : List GoString) (owner : GoString) (duration : Duration) (limit : ℤ)
      (w : World)
      → Step w (claim_event_deliveries env ids owner duration limit w).1
  -- The handler writes what `applyDeliveryResult` made of a delivery, which it may have claimed in
  -- any earlier world.
  persisted :
      (env : Environment) (h : DeliveryHandler) (d d' : Delivery) (r : DeliveryResult)
      (earlier w : World)
      → (apply_delivery_result env h d r earlier).0 ≡ ok d'
      → Step w (persist_claimed_delivery_outcome env (some d') r.attempts w).1
  -- A worker handles a list of claimed deliveries, or a batch of messages, with no other step between.
  deliveries_processed :
      (env : Environment) (h : DeliveryHandler) (traces : Traces) (ds : List (Option Delivery))
      (w : World)
      → Step w (process_deliveries env h traces ds w).1
  batch_processed :
      (env : Environment) (h : DeliveryHandler) (context : GoString) (msgs : List EventMessage)
      (w : World)
      → Step w (process_batch env h context msgs w).1
  replayed :
      (env : Environment) (id : GoString) (at : Time) (w : World)
      → Step w (replay_failed_delivery env id at w).1
  redacted :
      (env : Environment) (before : Time) (limit : ℤ) (w : World)
      → Step w (redact_attempt_bodies env before limit w).1
  deleted :
      (env : Environment) (before : Time) (limit : ℤ) (w : World)
      → Step w (delete_terminal_events env before limit w).1
  subscribed : (env : Environment) (sub : Subscription) (w : World) → Step w (create env sub w).1
  unsubscribed : (env : Environment) (id : GoString) (w : World) → Step w (delete env id w).1
  rotated :
      (env : Environment) (id secret : GoString) (w : World)
      → Step w (update_secret env id secret w).1

abbrev pub empty_world : World
empty_world = record {
  db = record { events = []; deliveries = []; attempts = []; subscriptions = [] };
  serial = 1;
  tick = 0;
  observed = [];
}

-- What the instances make of the empty tables.
pub data Reach : World → Type 0 where
  start : Reach empty_world
  step : {w w' : World} → Reach w → Step w w' → Reach w'
