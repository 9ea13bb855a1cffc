-- ===== src/Api/Changes.antt =====
-- internal/api/routes.go: the routes, and that an answer that reports a failure reports it truly.
use webhook_service.Prelude.{
  ap, ℕ, ◌≡◌, inl, inr, refl, ◌≤◌, Bool, true, false, Option, none, some, List, [], ◌∷◌, GoString,
  str_eq, ◌&&◌, arith, ◌==◌, count_where, update_where,
}
use webhook_service.Domain.Event.{Time}
use webhook_service.Domain.Delivery.{Delivery}
use webhook_service.Domain.Subscription.{Subscription}
use webhook_service.Repository.World.{World, Environment, ok, advance, query, exec}
use webhook_service.Repository.World.Inversion.{Result-cases}
use webhook_service.Repository.Reads.{
  get_by_id, get_attempts_by_event_id, get_deliveries_by_event_id,
}
use webhook_service.Repository.Replay.{replay_failed_delivery}
use webhook_service.Repository.Replay.Generation.{
  replay_failed_delivery-ok, replay_failed_delivery_atomic,
}
use webhook_service.Repository.Subscriptions.{create, get_active, delete, update_secret}
use webhook_service.Kafka.Message.{EventMessage}
use webhook_service.Api.Response.{CreateEventRequest, CreateSubscriptionRequest, HttpResponse}
use webhook_service.Api.Handler.{
  create_event, get_event, get_event_attempts, get_event_deliveries, create_subscription,
  get_subscriptions, rotate_subscription_secret, replay_delivery, delete_subscription,
}

-- The routes of the interface; the health checks and the metrics are left out.
pub data Call : Type 0 where
  post_event : Option CreateEventRequest → Call
  post_subscription : Option CreateSubscriptionRequest → Call
  put_secret : GoString → Option GoString → Call
  post_replay delete_route : GoString → Call
  get_event_route get_attempts_route get_deliveries_route : GoString → Call
  get_subscriptions_route : Call

unfoldable pub serve : Environment → (ℕ → EventMessage → Bool) → Call → World → HttpResponse × World
serve env publish (post_event req) w =
    let (response, w', sent) = create_event env publish req w in (response, w')
serve env publish (post_subscription req) w = create_subscription env req w
serve env publish (put_secret id secret) w = rotate_subscription_secret env id secret w
serve env publish (post_replay id) w = replay_delivery env id w
serve env publish (delete_route id) w = delete_subscription env id w
serve env publish (get_event_route id) w = get_event env id w
serve env publish (get_attempts_route id) w = get_event_attempts env id w
serve env publish (get_deliveries_route id) w = get_event_deliveries env id w
serve env publish get_subscriptions_route w = get_subscriptions env w

update_where-unmatched :
    {A : Type 0} (p : A → Bool) (f : A → A) (xs : List A)
    → (count_where p xs == 0) ≡ true
    → update_where p f xs ≡ xs
update_where-unmatched p f [] h = refl
update_where-unmatched p f (x ∷ xs) h = ground (arith, update_where-unmatched p f xs)

create_event_unchanged :
    (env : Environment) (publish : ℕ → EventMessage → Bool) (req : Option CreateEventRequest)
    (w : World)
    → (create_event env publish req w).1.db ≡ w.db
unfolding create_event
create_event_unchanged env publish none w = refl
create_event_unchanged env publish (some req) w = ground arith

get_event_unchanged :
    (env : Environment) (id : GoString) (w : World) → (get_event env id w).1.db ≡ w.db
unfolding get_event get_by_id query
get_event_unchanged env [] w = refl
get_event_unchanged env (c ∷ id) w = ground arith

get_attempts_unchanged :
    (env : Environment) (id : GoString) (w : World) → (get_event_attempts env id w).1.db ≡ w.db
unfolding get_event_attempts get_attempts_by_event_id query
get_attempts_unchanged env [] w = refl
get_attempts_unchanged env (c ∷ id) w = ground arith

get_deliveries_unchanged :
    (env : Environment) (id : GoString) (w : World) → (get_event_deliveries env id w).1.db ≡ w.db
unfolding get_event_deliveries get_deliveries_by_event_id query
get_deliveries_unchanged env [] w = refl
get_deliveries_unchanged env (c ∷ id) w = ground arith

get_subscriptions_unchanged :
    (env : Environment) (w : World) → (get_subscriptions env w).1.db ≡ w.db
unfolding get_subscriptions get_active query
get_subscriptions_unchanged env w = ground arith

create_subscription_unchanged :
    (env : Environment) (req : Option CreateSubscriptionRequest) (w : World)
    → 400 ≤ (create_subscription env req w).0.status
    → (create_subscription env req w).1.db ≡ w.db
unfolding create_subscription create exec
create_subscription_unchanged env none w h = refl
create_subscription_unchanged env (some req) w h = ground arith

rotate_unchanged :
    (env : Environment) (id : GoString) (secret : Option GoString) (w : World)
    → 400 ≤ (rotate_subscription_secret env id secret w).0.status
    → (rotate_subscription_secret env id secret w).1.db ≡ w.db
unfolding rotate_subscription_secret update_secret exec
rotate_unchanged env [] secret w h = refl
rotate_unchanged env (c ∷ id) none w h = refl
rotate_unchanged env (c ∷ id) (some secret) w h = ground (
  arith,
  update_where-unmatched (λ (s : Subscription). str_eq s.id (c ∷ id) && s.active)
      (λ s. record s { secret = some secret }) w.db.subscriptions,
)

delete_unchanged :
    (env : Environment) (id : GoString) (w : World)
    → 400 ≤ (delete_subscription env id w).0.status
    → (delete_subscription env id w).1.db ≡ w.db
unfolding delete_subscription delete exec
delete_unchanged env [] w h = refl
delete_unchanged env (c ∷ id) w h = ground (
  arith,
  update_where-unmatched (λ (s : Subscription). str_eq s.id (c ∷ id))
      (λ s. record s { active = false }) w.db.subscriptions,
)

-- The delivery of a replay that succeeds has an instant, so that the answer never panics.
replayed-scheduled :
    (env : Environment) (id : GoString) (at : Time) (w : World) {d : Delivery}
    → (replay_failed_delivery env id at w).0 ≡ ok d
    → d.next_attempt_at ≡ some at
replayed-scheduled env id at w h =
    let (row, now, found, failed, opened, read, written) =
      replay_failed_delivery-ok env id at w h in
    ap (λ (x : Delivery). x.next_attempt_at) opened

replay_unchanged :
    (env : Environment) (id : GoString) (w : World)
    → 400 ≤ (replay_delivery env id w).0.status
    → (replay_delivery env id w).1.db ≡ w.db
unfolding replay_delivery
replay_unchanged env [] w h = refl
replay_unchanged env (c ∷ id) w h =
    elim (Result-cases (replay_failed_delivery env (c ∷ id) (env.now w.tick) (advance w)).0) [
      | inl (d, e) ↦
          let s = replayed-scheduled env (c ∷ id) (env.now w.tick) (advance w) e in ground arith
      | inr (x, e) ↦
          let same = replay_failed_delivery_atomic env (c ∷ id) (env.now w.tick) (advance w) e in
          ground arith
    ]

-- A request whose answer reports a failure, a status of 400 or more, has changed no table.
pub serve_unchanged :
    (env : Environment) (publish : ℕ → EventMessage → Bool) (call : Call) (w : World)
    → 400 ≤ (serve env publish call w).0.status
    → (serve env publish call w).1.db ≡ w.db
unfolding serve
serve_unchanged env publish (post_event req) w h = create_event_unchanged env publish req w
serve_unchanged env publish (post_subscription req) w h = create_subscription_unchanged env req w h
serve_unchanged env publish (put_secret id secret) w h = rotate_unchanged env id secret w h
serve_unchanged env publish (post_replay id) w h = replay_unchanged env id w h
serve_unchanged env publish (delete_route id) w h = delete_unchanged env id w h
serve_unchanged env publish (get_event_route id) w h = get_event_unchanged env id w
serve_unchanged env publish (get_attempts_route id) w h = get_attempts_unchanged env id w
serve_unchanged env publish (get_deliveries_route id) w h = get_deliveries_unchanged env id w
serve_unchanged env publish get_subscriptions_route w h = get_subscriptions_unchanged env w
