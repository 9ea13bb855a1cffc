-- ===== src/Kafka/Handler/Stored.antt =====
-- internal/kafka/handler.go: what a batch that has been processed without an error leaves in the
-- store. The consumer commits the batch then.
use webhook_service.Prelude.{
  ℕ, ◌+◌, ◌++◌, length, ◌≡◌, sym, ap, ◌∙◌, subst, Bool, true, Option, some, List, [], ◌∷◌, map,
  GoString, str_eq, str_eq_refl, arith, exists,
}
use webhook_service.Domain.Event.{Time, Event, DeliveryAttempt}
use webhook_service.Domain.Subscription.{Subscription}
use webhook_service.Domain.Delivery.{Delivery}
use webhook_service.Domain.Projection.{EventProjection}
use webhook_service.Repository.World.{
  Database, World, Environment, ok, ◌>>=◌, pure, advance, time_now,
}
use webhook_service.Repository.World.Inversion.{>>=-eq-ok}
use webhook_service.Repository.Initialize.{
  event_row, with_defaults, insert_event_row, initialize_event_deliveries,
}
use webhook_service.Repository.Initialize.Frozen.{initialize_event_deliveries-Freezes}
use webhook_service.Repository.Initialize.Repeated.{id-event_row}
use webhook_service.Repository.Subscriptions.{SubscriptionMap, lookup_subs}
use webhook_service.Kafka.Message.{EventMessage}
use webhook_service.Kafka.Handler.{initialize_events, event_from_message}
use webhook_service.Repository.Rows.{exists-update_where, exists-snoc_keeps}
use webhook_service.Repository.Outcome.{project_row, persist_claimed_delivery_outcome}
use webhook_service.Repository.Outcome.Projection.{id-project_row, project_event_row}
use webhook_service.Repository.Outcome.Fence.{outcome_written, persist_claimed_delivery_outcome-ok}

-- The table of events has a row with this id.
abbrev pub Stored : GoString → Database → Type 0
Stored id db = exists (λ (e : Event). str_eq e.id id) db.events ≡ true

pub Stored-project_event_row :
    (id : GoString) (t : Time) (i : GoString) (p : EventProjection) (db : Database)
    → Stored id db
    → Stored id (project_event_row t i p db)
Stored-project_event_row id t i p db h =
    exists-update_where (λ (e : Event). str_eq e.id id) (λ (e : Event). str_eq e.id i)
      (project_row t p) db.events (λ e. ap (λ x. str_eq x id) (id-project_row t p e))
    ∙ h

-- A persist keeps every event.
pub Stored-persist :
    (env : Environment) (d : Delivery) (attempts : List DeliveryAttempt) (w : World) (id : GoString)
    → (persist_claimed_delivery_outcome env (some d) attempts w).0 ≡ ok tt
    → Stored id w.db
    → Stored id (persist_claimed_delivery_outcome env (some d) attempts w).1.db
Stored-persist env d attempts w id h s =
    let (owner, deadline, now, ho, hd, one, e) =
      persist_claimed_delivery_outcome-ok env d attempts w h in
    subst (Stored id) (sym e) (
      Stored-project_event_row id _ d.event_id _
        (outcome_written (env.db_now w.tick) w.serial owner deadline d attempts w.db) s)

exists-snoc :
    (p : Event → Bool) (es : List Event) (e : Event) → p e ≡ true → exists p (es ++ (e ∷ [])) ≡ true
exists-snoc p [] e h = ground (arith, h)
exists-snoc p (x ∷ es) e h = ground (arith, exists-snoc p es e h)

Stored-insert_event_row :
    (event : Event) (db : Database) → Stored event.id (insert_event_row event db)
unfolding insert_event_row
Stored-insert_event_row event db = ground (
  arith,
  exists-snoc (λ (e : Event). str_eq e.id event.id) db.events event (str_eq_refl event.id),
)

pub kept-insert_event_row :
    (event : Event) (db : Database) (id : GoString)
    → Stored id db
    → Stored id (insert_event_row event db)
unfolding insert_event_row
kept-insert_event_row event db id s =
    ground (arith, exists-snoc_keeps (λ (e : Event). str_eq e.id id) db.events event s)

-- An initialisation stores its event and keeps the others.
pub Stored-initialize :
    (env : Environment) (event : Event) (subs : List (Option Subscription)) (w : World)
    {rows : List Delivery}
    → (initialize_event_deliveries env (some event) subs w).0 ≡ ok rows
    → Stored event.id (initialize_event_deliveries env (some event) subs w).1.db
Stored-initialize env event subs w h =
    let (now, frozen, r) = initialize_event_deliveries-Freezes env event subs w h in
    let row = event_row now subs (with_defaults now event) in
    subst (Stored event.id) (sym frozen.tables) (
      subst (λ i. Stored i (insert_event_row row w.db)) (id-event_row now subs event)
        (Stored-insert_event_row row w.db))

pub kept-initialize :
    (env : Environment) (event : Event) (subs : List (Option Subscription)) (w : World)
    {rows : List Delivery} (id : GoString)
    → (initialize_event_deliveries env (some event) subs w).0 ≡ ok rows
    → Stored id w.db
    → Stored id (initialize_event_deliveries env (some event) subs w).1.db
kept-initialize env event subs w id h s =
    let (now, frozen, r) = initialize_event_deliveries-Freezes env event subs w h in
    subst (Stored id) (sym frozen.tables)
      (kept-insert_event_row (event_row now subs (with_defaults now event)) w.db id s)

-- What the first message of a batch makes of the store, and the rest of them.
pub initialize_events_step :
    (env : Environment) (subs : SubscriptionMap) (msg : EventMessage) (msgs : List EventMessage)
    (w : World) {n : ℕ}
    → (initialize_events env subs (msg ∷ msgs) w).0 ≡ ok n
    → let first =
        initialize_event_deliveries env
          (some (event_from_message (env.now w.tick) msg))
          (map some (lookup_subs msg.type subs))
          (advance w) in
      (rows : List Delivery) × (k : ℕ) × (first.0 ≡ ok rows)
      × ((initialize_events env subs msgs first.1).0 ≡ ok k)
      × ((initialize_events env subs (msg ∷ msgs) w).1.db
          ≡ (initialize_events env subs msgs first.1).1.db)
unfolding initialize_events time_now
initialize_events_step env subs msg msgs w h =
    let m =
      initialize_event_deliveries env (some (event_from_message (env.now w.tick) msg))
        (map some (lookup_subs msg.type subs)) in
    let (rows, e1, e2) =
      >>=-eq-ok m (λ rows. initialize_events env subs msgs >>= λ n. pure (length rows + n))
        (advance w) h in
    let (k, e3, e4) =
      >>=-eq-ok (initialize_events env subs msgs) (λ n. pure (length rows + n)) (m (advance w)).1
        (sym (ap (λ r. r.0) e2) ∙ h) in
    (rows, k, e1, e3, ap (λ r. r.1.db) (e2 ∙ e4))
