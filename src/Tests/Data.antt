-- ===== src/Tests/Data.antt =====
-- Sample rows, worlds and answers of the outside.
use webhook_service.Prelude.{true, false, Option, none, some, List, [], ◌∷◌, GoString, inl, lit}
use webhook_service.Prelude.Int.{pos}
use webhook_service.Domain.Event.{Time, Event, EventStatus, DeliveryAttempt}
use webhook_service.Domain.Subscription.{Subscription}
use webhook_service.Domain.Delivery.{Delivery, DeliveryStatus}
use webhook_service.Kafka.Webhook.{Client}
use webhook_service.Kafka.Delivery.{DeliveryHandler}
use webhook_service.Repository.World.{Database, World, Environment}

abbrev pub order_created : GoString
order_created = lit "order.created"

abbrev pub sub_a : Subscription
sub_a = record {
  id = lit "a";
  url = lit "http://a";
  event_types = lit "order.*" ∷ [];
  secret = some (lit "key");
  max_delivery_rate = pos 10;
  created_at = pos 1;
  active = true;
}

abbrev pub event_1 : Event
event_1 = record {
  id = lit "1";
  type = order_created;
  source = lit "shop";
  payload = lit "{}";
  status = EventStatus.pending;
  attempts = pos 0;
  max_attempts = pos 3;
  next_attempt_at = none;
  last_error = none;
  created_at = pos 5;
  updated_at = pos 5;
  delivered_at = none;
}

abbrev pub delivery_in : DeliveryStatus → Option GoString → Option Time → Delivery
delivery_in status owner deadline = record {
  id = lit "1:a";
  event_id = lit "1";
  subscription_id = lit "a";
  event_type = order_created;
  source = lit "shop";
  payload = lit "{}";
  subscription_url = lit "http://a";
  subscription_secret = some (lit "key");
  max_delivery_rate = pos 10;
  status = status;
  attempts = pos 1;
  max_attempts = pos 3;
  generation = pos 1;
  next_attempt_at = none;
  last_error = none;
  created_at = pos 6;
  updated_at = pos 6;
  delivered_at = none;
  processing_owner = owner;
  processing_deadline = deadline;
}

abbrev pub pending_row : Delivery
pending_row = delivery_in DeliveryStatus.pending none none

abbrev pub failed_row : Delivery
failed_row = delivery_in DeliveryStatus.failed none none

abbrev pub leased_row : Delivery
leased_row = delivery_in DeliveryStatus.processing (some (lit "w")) (some (pos 9000))

-- The same delivery after a success, with its lease still in memory.
abbrev pub finished : Delivery
finished = record leased_row {
  status = DeliveryStatus.delivered;
  attempts = pos 2;
  delivered_at = some (pos 1200);
}

abbrev pub attempt_2 : DeliveryAttempt
attempt_2 = record {
  id = 0;
  event_id = lit "1";
  delivery_id = lit "1:a";
  subscription_id = lit "a";
  attempt_number = pos 2;
  generation = pos 1;
  status_code = some (pos 200);
  response_body = none;
  error = none;
  duration_ms = pos 3;
  created_at = pos 1100;
}

abbrev pub tables : List Event → List Delivery → Database
tables events deliveries = record {
  events = events;
  deliveries = deliveries;
  attempts = [];
  subscriptions = sub_a ∷ [];
}

abbrev pub world_of : Database → World
world_of db = record { db = db; serial = 1; tick = 0; observed = [] }

abbrev pub empty_world : World
empty_world = world_of (tables [] [])

abbrev pub with_row : Delivery → World
with_row d = world_of (tables (event_1 ∷ []) (d ∷ []))

-- All statements succeed, and all clocks show 1000.
abbrev pub calm : Environment
calm = record {
  now = λ _. pos 1000;
  db_now = λ _. pos 1000;
  statement_fails = λ _. false;
  locked = λ _ _. false;
  locked_event = λ _ _. false;
  locked_attempt = λ _ _. false;
  collate = λ _ _. true;
}

-- Every statement fails.
abbrev pub down : Environment
down = record calm { statement_fails = λ _. true }

-- Every URL answers 200, every digest is the text itself.
abbrev pub client : Client
client = record {
  marshal = λ id type source payload. inl payload;
  url_error = λ _. none;
  mac = λ key text. text;
  hex = λ text. text;
  unix = λ t. t;
  format_int = λ _. lit "10";
  respond = λ tick request. inl (record { status_code = pos 200; first_read = [] });
}

abbrev pub handler : DeliveryHandler
handler = record {
  client = client;
  rate_limiter = none;
  delay = λ tick attempt. pos 60;
  policy_max_attempts = pos 5;
  instance_id = lit "w";
  lease_duration = pos 30000;
}
