-- ===== src/Repository/Invariant/Inserts.antt =====
-- The inserts of an event and of its deliveries keep the invariant.
use mathlib.Core.Path.{ap₂}
use webhook_service.Prelude.{
  ◌≡◌, refl, sym, subst, true, false, ◌&&◌, some, [], ◌∷◌, ◌++◌, str_eq, arith, exists, Bool-cases,
  inl, inr,
}
use webhook_service.Domain.Event.{Time, Event}
use webhook_service.Domain.Subscription.{Subscription}
use webhook_service.Domain.Delivery.{Delivery, new_delivery}
use webhook_service.Repository.World.{Database}
use webhook_service.Repository.Rows.{exists-snoc_keeps, All-of_In, All-In}
use webhook_service.Repository.Keys.{str_eq_sym, All-snoc, Distinct-snoc}
use webhook_service.Repository.Initialize.{same_pair, insert_event_row, insert_delivery_row}
use webhook_service.Repository.Initialize.Frozen.{Inserts, kept, added, insert_delivery_row-Inserts}
use webhook_service.Repository.Invariant.{
  row_sound, same_event, same_delivery, has_event, WellFormed, IsValid,
}

pair_sym : (d e : Delivery) → same_pair d e ≡ same_pair e d
pair_sym d e =
    ap₂ ◌&&◌ (str_eq_sym e.event_id d.event_id) (str_eq_sym e.subscription_id d.subscription_id)

insert_fresh :
    (d : Delivery) (db : Database)
    → row_sound d ≡ true
    → has_event db.events d ≡ true
    → exists (same_delivery d) db.deliveries ≡ false
    → exists (same_pair d) db.deliveries ≡ false
    → IsValid db
    → WellFormed db.events (db.deliveries ++ (d ∷ []))
insert_fresh d db s e k l h = record {
  rows = All-snoc _ db.deliveries d h.rows s;
  parents = All-snoc _ db.deliveries d h.parents e;
  event_keys = h.event_keys;
  delivery_keys =
      Distinct-snoc same_delivery (λ x y. str_eq_sym y.id x.id) db.deliveries d h.delivery_keys k;
  pair_keys = Distinct-snoc same_pair pair_sym db.deliveries d h.pair_keys l;
}

new_delivery_sound :
    (now : Time) (event : Event) (sub : Subscription)
    → row_sound (new_delivery now event sub) ≡ true
unfolding new_delivery
new_delivery_sound now event sub = refl

Inserts-IsValid :
    (d : Delivery) (db db' : Database)
    → Inserts d db db'
    → row_sound d ≡ true
    → IsValid db
    → IsValid db'
Inserts-IsValid d db db' (kept there same) s h = subst IsValid (sym same) h
Inserts-IsValid d db db' (added absent allowed same) s h =
    subst IsValid (sym same)
      (insert_fresh d db s (ground (arith, allowed)) (ground (arith, allowed)) absent h)

pub insert_delivery_row-IsValid :
    (now : Time) (event : Event) (sub : Subscription) (db db' : Database)
    → insert_delivery_row (new_delivery now event sub) db ≡ some (tt, db')
    → IsValid db
    → IsValid db'
insert_delivery_row-IsValid now event sub db db' e h =
    let d = new_delivery now event sub in
    Inserts-IsValid d db db' (insert_delivery_row-Inserts d db db' e)
      (new_delivery_sound now event sub) h

pub insert_event_row-IsValid :
    (event : Event) (db : Database) → IsValid db → IsValid (insert_event_row event db)
unfolding insert_event_row
insert_event_row-IsValid event db h = elim (Bool-cases (exists (same_event event) db.events)) [
  | inl there ↦ rw there h
  | inr absent ↦ rw absent (record {
    rows = h.rows;
    parents = All-of_In _ db.deliveries λ d i.
        exists-snoc_keeps (λ (e : Event). str_eq e.id d.event_id) db.events event
          (All-In _ d db.deliveries h.parents i);
    event_keys =
        Distinct-snoc same_event (λ x y. str_eq_sym y.id x.id) db.events event h.event_keys absent;
    delivery_keys = h.delivery_keys;
    pair_keys = h.pair_keys;
  })
]
