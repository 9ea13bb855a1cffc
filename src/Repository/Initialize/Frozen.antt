-- ===== src/Repository/Initialize/Frozen.antt =====
-- The set of deliveries of an event: initialising it again keeps every row that is there, adds a row
-- for each subscription that has none, and is refused where a delivery id is taken.
use webhook_service.Prelude.{
  suc, ◌≡◌, refl, sym, ap, ◌∙◌, subst, Bool, true, false, ◌&&◌, Option, none, some, List, [], ◌∷◌,
  ◌++◌, GoString, str_eq, str_eq_refl, arith, All, exists, Bool-cases, inl, inr,
}
use mathlib.Core.List.{append-nil, append_assoc}
use webhook_service.Domain.Event.{Time, Err, Event}
use webhook_service.Domain.Subscription.{Subscription}
use webhook_service.Domain.Delivery.{Delivery, new_delivery, delivery_id}
use webhook_service.Repository.World.{
  Database, World, Environment, ok, err, advance, time_now, exec, ◌>>=◌,
}
use webhook_service.Repository.World.Inversion.{
  >>=-eq-ok, exec-eq-ok, transaction-eq-ok, transaction_atomic, query-eq-ok,
}
use webhook_service.Repository.Reads.{get_deliveries_by_event_id, deliveries_of}
use webhook_service.Repository.Initialize.{
  with_defaults, event_row, insert_event_row, same_pair, row_allowed, insert_delivery_row,
  insert_deliveries, initialize_body, initialize_event_deliveries,
}

-- A row of this event and this subscription.
abbrev pub is_row_of : GoString → GoString → Delivery → Bool
is_row_of event_id subscription_id e =
    str_eq e.event_id event_id && str_eq e.subscription_id subscription_id

-- A property of a subscription that a nil pointer has for nothing.
abbrev pub OfSubscription : (Subscription → Type 0) → Option Subscription → Type 0
OfSubscription P none = Unit
OfSubscription P (some sub) = P sub

-- What one insert does when it is accepted.
pub data Inserts (d : Delivery) (db db' : Database) : Type 0 where
  kept : exists (same_pair d) db.deliveries ≡ true → db' ≡ db → Inserts d db db'
  added :
      exists (same_pair d) db.deliveries ≡ false
      → row_allowed d db ≡ true
      → db' ≡ record db { deliveries = db.deliveries ++ (d ∷ []) }
      → Inserts d db db'

pub insert_delivery_row-Inserts :
    (d : Delivery) (db db' : Database)
    → insert_delivery_row d db ≡ some (tt, db')
    → Inserts d db db'
unfolding insert_delivery_row
insert_delivery_row-Inserts d db db' h = elim (Bool-cases (exists (same_pair d) db.deliveries)) [
  | inl there ↦ kept there (ground arith)
  | inr absent ↦ elim (Bool-cases (row_allowed d db)) [
    | inl allowed ↦ added absent allowed (ground arith)
    | inr refused ↦ absurd (ground arith)
  ]
]

exists-append_left :
    (p : Delivery → Bool) (xs ys : List Delivery) → exists p xs ≡ true → exists p (xs ++ ys) ≡ true
exists-append_left p [] ys h = absurd (cc)
exists-append_left p (x ∷ xs) ys h = ground (arith, exists-append_left p xs ys)

exists-append_last :
    (p : Delivery → Bool) (xs : List Delivery) (y : Delivery)
    → p y ≡ true
    → exists p (xs ++ (y ∷ [])) ≡ true
exists-append_last p [] y h = rw h
exists-append_last p (x ∷ xs) y h = ground (arith, exists-append_last p xs y h)

pub new_delivery-fields :
    (now : Time) (event : Event) (sub : Subscription)
    → let d = new_delivery now event sub in
      (d.event_id ≡ event.id) × (d.subscription_id ≡ sub.id) × (d.id ≡ delivery_id event.id sub.id)
unfolding new_delivery
new_delivery-fields now event sub = (refl, refl, refl)

-- What the loop over the subscriptions has done when it succeeds.
pub record Freezes (event : Event) (subs : List (Option Subscription)) (db db' : Database)
    : Type 0 where
  pub added : List Delivery
  pub fresh :
      All (λ d. (now : Time) × (sub : Subscription) × (d ≡ new_delivery now event sub)) added
  pub tables : db' ≡ record db { deliveries = db.deliveries ++ added }
  pub covered :
      All (OfSubscription (λ sub. exists (is_row_of event.id sub.id) db'.deliveries ≡ true)) subs

insert_one-Freezes :
    (now : Time) (event : Event) (sub : Subscription) (db db' : Database)
    → Inserts (new_delivery now event sub) db db'
    → Freezes event (some sub ∷ []) db db'
unfolding new_delivery
insert_one-Freezes now event sub db db' (kept there e) = record {
  added = [];
  fresh = tt;
  tables =
      e
      ∙ ap (λ (rows : List Delivery). record db { deliveries = rows })
          (sym (append-nil db.deliveries));
  covered = (rw e there, tt);
}
insert_one-Freezes now event sub db db' (added absent allowed e) = record {
  added = new_delivery now event sub ∷ [];
  fresh = ((now, sub, refl), tt);
  tables = e;
  covered = (
    rw e (
        exists-append_last (is_row_of event.id sub.id) db.deliveries (new_delivery now event sub)
          (ground (arith, str_eq_refl event.id, str_eq_refl sub.id))),
    tt,
  );
}

All-append : {A : Type 0} (P : A → Type 0) (xs ys : List A) → All P xs → All P ys → All P (xs ++ ys)
All-append P [] ys h k = k
All-append P (x ∷ xs) ys h k = (h.0, All-append P xs ys h.1 k)

covered_later :
    (event : Event) (o : Option Subscription) (db db' : Database) (rows : List Delivery)
    → db'.deliveries ≡ db.deliveries ++ rows
    → OfSubscription (λ sub. exists (is_row_of event.id sub.id) db.deliveries ≡ true) o
    → OfSubscription (λ sub. exists (is_row_of event.id sub.id) db'.deliveries ≡ true) o
covered_later event none db db' rows e h = tt
covered_later event (some sub) db db' rows e h =
    ap (exists (is_row_of event.id sub.id)) e
    ∙ exists-append_left (is_row_of event.id sub.id) db.deliveries rows h

Freezes-cons :
    {event : Event} {o : Option Subscription} {subs : List (Option Subscription)}
    {db db' db'' : Database}
    → Freezes event (o ∷ []) db db'
    → Freezes event subs db' db''
    → Freezes event (o ∷ subs) db db''
Freezes-cons {event = event} {o = o} {db = db} {db' = db'} {db'' = db''} f g = record {
  added = f.added ++ g.added;
  fresh = All-append _ f.added g.added f.fresh g.fresh;
  tables =
      g.tables
      ∙ ap (λ (x : Database). record x { deliveries = x.deliveries ++ g.added }) f.tables
      ∙ ap (λ (rows : List Delivery). record db { deliveries = rows })
          (append_assoc db.deliveries f.added g.added);
  covered = (
    covered_later event o db' db'' g.added (ap (λ (x : Database). x.deliveries) g.tables)
        f.covered.0,
    g.covered,
  );
}

Freezes-nil : (event : Event) (db : Database) → Freezes event [] db db
Freezes-nil event db = record {
  added = [];
  fresh = tt;
  tables =
      ap (λ (rows : List Delivery). record db { deliveries = rows })
        (sym (append-nil db.deliveries));
  covered = tt;
}

Freezes-none :
    {event : Event} {subs : List (Option Subscription)} {db db' : Database}
    → Freezes event subs db db'
    → Freezes event (none ∷ subs) db db'
Freezes-none f = record {
  added = f.added;
  fresh = f.fresh;
  tables = f.tables;
  covered = (tt, f.covered);
}

pub insert_deliveries-Freezes :
    (env : Environment) (event : Event) (subs : List (Option Subscription)) (w : World)
    → (insert_deliveries env event subs w).0 ≡ ok tt
    → Freezes event subs w.db (insert_deliveries env event subs w).1.db
unfolding insert_deliveries time_now
insert_deliveries-Freezes env event [] w h = Freezes-nil event w.db
insert_deliveries-Freezes env event (none ∷ subs) w h =
    Freezes-none (insert_deliveries-Freezes env event subs w h)
insert_deliveries-Freezes env event (some sub ∷ subs) w h =
    let now = env.now w.tick in
    let d = new_delivery now event sub in
    let insert = exec env (λ _ _ db. insert_delivery_row d db) in
    let rest = insert_deliveries env event subs in
    let (u, e1, e2) = >>=-eq-ok insert (λ _. rest) (advance w) h in
    let (db', i, f) = exec-eq-ok env (λ _ _ db. insert_delivery_row d db) (advance w) e1 in
    let w' : World = record (advance (advance w)) { db = db' } in
    let e = e2 ∙ ap rest f in
    let one =
      insert_one-Freezes now event sub w.db db' (insert_delivery_row-Inserts d w.db db' i) in
    let more = insert_deliveries-Freezes env event subs w' (sym (ap (λ r. r.0) e) ∙ h) in
    subst (Freezes event (some sub ∷ subs) w.db) (sym (ap (λ r. r.1.db) e)) (Freezes-cons one more)

pub get_deliveries-eq-ok :
    (env : Environment) (id : GoString) (w : World) {rows : List Delivery}
    → (get_deliveries_by_event_id env id w).0 ≡ ok rows
    → (rows ≡ deliveries_of env id w.db) × ((get_deliveries_by_event_id env id w).1 ≡ advance w)
unfolding get_deliveries_by_event_id
get_deliveries-eq-ok env id w h = query-eq-ok env (λ _ _ db. deliveries_of env id db) w h

-- The tables with the row of an event that is new.
abbrev pub with_event : Time → List (Option Subscription) → Event → Database → Database
with_event now subs event db = insert_event_row (event_row now subs (with_defaults now event)) db

pub initialize_body_step :
    (env : Environment) (event : Event) (subs : List (Option Subscription)) (w : World)
    {rows : List Delivery}
    → (initialize_body env event subs w).0 ≡ ok rows
    → let now = env.now w.tick in
      initialize_body env event subs w
      ≡ (insert_deliveries env (with_defaults now event) subs >>= λ _.
            get_deliveries_by_event_id env event.id)
          (record w { db = with_event now subs event w.db; tick = suc (suc w.tick) })
unfolding initialize_body exec time_now
initialize_body_step env event subs w h = ground arith

-- An initialisation that succeeds stores the event's row if there was none, keeps every delivery row
-- as it was, appends new pending rows of the event until each of the given subscriptions has one,
-- and returns the rows of the event.
pub initialize_event_deliveries-Freezes :
    (env : Environment) (event : Event) (subs : List (Option Subscription)) (w : World)
    {rows : List Delivery}
    → (initialize_event_deliveries env (some event) subs w).0 ≡ ok rows
    → let after = (initialize_event_deliveries env (some event) subs w).1.db in
      (now : Time) × Freezes (with_defaults now event) subs (with_event now subs event w.db) after
      × (rows ≡ deliveries_of env event.id after)
unfolding initialize_event_deliveries
initialize_event_deliveries-Freezes env event subs w {rows} h =
    let (e, f) = transaction-eq-ok env (λ tx_now. initialize_body env event subs) w h in
    let now = env.now (suc w.tick) in
    let g = initialize_body_step env event subs (advance w) e in
    let w1 : World = record w {
      db = with_event now subs event w.db;
      tick = suc (suc (suc w.tick));
    } in
    let insert = insert_deliveries env (with_defaults now event) subs in
    let read = get_deliveries_by_event_id env event.id in
    let (u, e1, e2) = >>=-eq-ok insert (λ _. read) w1 (sym (ap (λ r. r.0) g) ∙ e) in
    let w2 = (insert w1).1 in
    let q = get_deliveries-eq-ok env event.id w2 (sym (ap (λ r. r.0) (g ∙ e2)) ∙ e) in
    let d = f ∙ ap (λ r. r.1.db) (g ∙ e2) ∙ ap (λ (v : World). v.db) q.1 in
    (
      now,
      subst (Freezes (with_defaults now event) subs (with_event now subs event w.db)) (sym d)
          (insert_deliveries-Freezes env (with_defaults now event) subs w1 e1),
      q.0 ∙ ap (deliveries_of env event.id) (sym d),
    )

-- An initialisation that fails changes no table.
pub initialize_event_deliveries_atomic :
    (env : Environment) (event : Option Event) (subs : List (Option Subscription)) (w : World)
    {e : Err}
    → (initialize_event_deliveries env event subs w).0 ≡ err e
    → (initialize_event_deliveries env event subs w).1.db ≡ w.db
unfolding initialize_event_deliveries
initialize_event_deliveries_atomic env none subs w h = refl
initialize_event_deliveries_atomic env (some event) subs w h =
    transaction_atomic env (λ tx_now. initialize_body env event subs) w h
