-- ===== src/Repository/Initialize/Repeated.antt =====
-- Initialising an event again, as a message that Kafka delivers twice does; and the ids that can
-- never be stored.
use webhook_service.Prelude.{
  suc, ◌≡◌, ◌≢◌, refl, sym, ap, ◌∙◌, true, false, Option, none, some, List, [], ◌∷◌, GoString,
  str_eq, arith, All, exists,
}
use webhook_service.Domain.Event.{Time, Event}
use webhook_service.Domain.Subscription.{Subscription}
use webhook_service.Domain.Delivery.{Delivery, new_delivery, delivery_id}
use webhook_service.Repository.World.{Database, World, Environment, ok, advance, time_now, exec}
use webhook_service.Repository.World.Inversion.{>>=-eq-ok, exec-eq-ok, transaction-eq-ok}
use webhook_service.Repository.Reads.{get_deliveries_by_event_id}
use webhook_service.Repository.Initialize.{
  with_defaults, event_row, insert_event_row, insert_delivery_row, insert_deliveries,
  initialize_body, initialize_event_deliveries,
}
use webhook_service.Repository.Initialize.Frozen.{
  is_row_of, OfSubscription, Inserts, kept, added, insert_delivery_row-Inserts,
  initialize_body_step, with_event, get_deliveries-eq-ok,
}

-- The first round of the loop and the world that it leaves to the others.
insert_deliveries_step :
    (env : Environment) (event : Event) (sub : Subscription) (subs : List (Option Subscription))
    (w : World)
    → (insert_deliveries env event (some sub ∷ subs) w).0 ≡ ok tt
    → (db' : Database) × Inserts (new_delivery (env.now w.tick) event sub) w.db db'
      × (insert_deliveries env event (some sub ∷ subs) w
          ≡ insert_deliveries env event subs (record w { db = db'; tick = suc (suc w.tick) }))
unfolding insert_deliveries time_now
insert_deliveries_step env event sub subs w h =
    let d = new_delivery (env.now w.tick) event sub in
    let insert = exec env (λ _ _ db. insert_delivery_row d db) in
    let rest = insert_deliveries env event subs in
    let (u, e1, e2) = >>=-eq-ok insert (λ _. rest) (advance w) h in
    let (db', i, f) = exec-eq-ok env (λ _ _ db. insert_delivery_row d db) (advance w) e1 in
    (db', insert_delivery_row-Inserts d w.db db' i, e2 ∙ ap rest f)

kept_of :
    (now : Time) (event : Event) (sub : Subscription) (db db' : Database)
    → exists (is_row_of event.id sub.id) db.deliveries ≡ true
    → Inserts (new_delivery now event sub) db db'
    → db' ≡ db
unfolding new_delivery
kept_of now event sub db db' h (kept there e) = e
kept_of now event sub db db' h (added absent allowed e) = absurd (cc)

insert_deliveries-nil :
    (env : Environment) (event : Event) (subs : List (Option Subscription)) (w : World)
    → (insert_deliveries env event [] w ≡ (ok tt, w))
      × (insert_deliveries env event (none ∷ subs) w ≡ insert_deliveries env event subs w)
unfolding insert_deliveries
insert_deliveries-nil env event subs w = (refl, refl)

-- A loop over subscriptions that have their rows changes nothing.
insert_deliveries-covered :
    (env : Environment) (event : Event) (subs : List (Option Subscription)) (db : Database)
    (w : World)
    → All (OfSubscription (λ sub. exists (is_row_of event.id sub.id) db.deliveries ≡ true)) subs
    → w.db ≡ db
    → (insert_deliveries env event subs w).0 ≡ ok tt
    → (insert_deliveries env event subs w).1.db ≡ db
insert_deliveries-covered env event [] db w c e h =
    ap (λ r. r.1.db) (insert_deliveries-nil env event [] w).0 ∙ e
insert_deliveries-covered env event (none ∷ subs) db w c e h =
    let p = (insert_deliveries-nil env event subs w).1 in
    ap (λ r. r.1.db) p
    ∙ insert_deliveries-covered env event subs db w c.1 e (sym (ap (λ r. r.0) p) ∙ h)
insert_deliveries-covered env event (some sub ∷ subs) db w c e h =
    let (db', i, p) = insert_deliveries_step env event sub subs w h in
    let w' : World = record w { db = db'; tick = suc (suc w.tick) } in
    let there = ap (λ (x : Database). exists (is_row_of event.id sub.id) x.deliveries) e ∙ c.0 in
    let same = kept_of (env.now w.tick) event sub w.db db' there i in
    ap (λ r. r.1.db) p
    ∙ insert_deliveries-covered env event subs db w' c.1 (same ∙ e) (sym (ap (λ r. r.0) p) ∙ h)

insert_event_row-known :
    (e : Event) (db : Database)
    → exists (λ (x : Event). str_eq x.id e.id) db.events ≡ true
    → insert_event_row e db ≡ db
unfolding insert_event_row
insert_event_row-known e db h = rw h

pub id-event_row :
    (now : Time) (subs : List (Option Subscription)) (event : Event)
    → (event_row now subs (with_defaults now event)).id ≡ event.id
unfolding event_row with_defaults
id-event_row now [] event = refl
id-event_row now (o ∷ subs) event = refl

-- An event that is stored, with a row for each of the given subscriptions, is left as it is by a
-- further initialisation that succeeds: no table changes.
pub initialize_event_deliveries-repeated :
    (env : Environment) (event : Event) (subs : List (Option Subscription)) (w : World)
    {rows : List Delivery}
    → exists (λ (x : Event). str_eq x.id event.id) w.db.events ≡ true
    → All (OfSubscription (λ sub. exists (is_row_of event.id sub.id) w.db.deliveries ≡ true)) subs
    → (initialize_event_deliveries env (some event) subs w).0 ≡ ok rows
    → (initialize_event_deliveries env (some event) subs w).1.db ≡ w.db
unfolding initialize_event_deliveries with_defaults
initialize_event_deliveries-repeated env event subs w known covered h =
    let (e, f) = transaction-eq-ok env (λ tx_now. initialize_body env event subs) w h in
    let now = env.now (suc w.tick) in
    let g = initialize_body_step env event subs (advance w) e in
    let same = insert_event_row-known (event_row now subs (with_defaults now event)) w.db (
      ap (λ (i : GoString). exists (λ (x : Event). str_eq x.id i) w.db.events)
        (id-event_row now subs event)
      ∙ known) in
    let w1 : World = record w {
      db = with_event now subs event w.db;
      tick = suc (suc (suc w.tick));
    } in
    let insert = insert_deliveries env (with_defaults now event) subs in
    let read = get_deliveries_by_event_id env event.id in
    let (u, e1, e2) = >>=-eq-ok insert (λ _. read) w1 (sym (ap (λ r. r.0) g) ∙ e) in
    let q = get_deliveries-eq-ok env event.id (insert w1).1 (sym (ap (λ r. r.0) (g ∙ e2)) ∙ e) in
    f
    ∙ ap (λ r. r.1.db) (g ∙ e2)
    ∙ ap (λ (v : World). v.db) q.1
    ∙ insert_deliveries-covered env (with_defaults now event) subs w.db w1 covered same e1

deliveries-insert_event_row :
    (e : Event) (db : Database) → (insert_event_row e db).deliveries ≡ db.deliveries
unfolding insert_event_row
deliveries-insert_event_row e db = ground arith

taken :
    (now : Time) (event : Event) (sub : Subscription) (db db' : Database)
    → exists (λ (e : Delivery). str_eq e.id (delivery_id event.id sub.id)) db.deliveries ≡ true
    → exists (is_row_of event.id sub.id) db.deliveries ≡ false
    → ¬ Inserts (new_delivery now event sub) db db'
unfolding new_delivery
taken now event sub db db' t a (kept there e) = cc
taken now event sub db db' t a (added absent allowed e) = ground arith

-- An event is refused for as long as the delivery id of its first subscription belongs to the row
-- of another event or subscription: the initialisation cannot succeed.
pub initialize_event_deliveries-id_taken :
    (env : Environment) (event : Event) (sub : Subscription) (subs : List (Option Subscription))
    (w : World) {rows : List Delivery}
    → exists (λ (e : Delivery). str_eq e.id (delivery_id event.id sub.id)) w.db.deliveries ≡ true
    → exists (is_row_of event.id sub.id) w.db.deliveries ≡ false
    → (initialize_event_deliveries env (some event) (some sub ∷ subs) w).0 ≢ ok rows
unfolding initialize_event_deliveries with_defaults
initialize_event_deliveries-id_taken env event sub subs w t a h =
    let ss : List (Option Subscription) = some sub ∷ subs in
    let (e, f) = transaction-eq-ok env (λ tx_now. initialize_body env event ss) w h in
    let now = env.now (suc w.tick) in
    let g = initialize_body_step env event ss (advance w) e in
    let w1 : World = record w {
      db = with_event now ss event w.db;
      tick = suc (suc (suc w.tick));
    } in
    let insert = insert_deliveries env (with_defaults now event) ss in
    let read = get_deliveries_by_event_id env event.id in
    let (u, e1, e2) = >>=-eq-ok insert (λ _. read) w1 (sym (ap (λ r. r.0) g) ∙ e) in
    let (db', i, p) = insert_deliveries_step env (with_defaults now event) sub subs w1 e1 in
    let same = deliveries-insert_event_row (event_row now ss (with_defaults now event)) w.db in
    let id : GoString = delivery_id event.id sub.id in
    taken _ (with_defaults now event) sub (with_event now ss event w.db) db'
      (ap (exists (λ (x : Delivery). str_eq x.id id)) same ∙ t)
      (ap (exists (is_row_of event.id sub.id)) same ∙ a) i
