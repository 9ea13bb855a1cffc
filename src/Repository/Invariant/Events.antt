-- ===== src/Repository/Invariant/Events.antt =====
-- The updates and the deletes of events keep the invariant.
use webhook_service.Prelude.{
  ◌≡◌, ap, ◌∙◌, true, false, not, List, GoString, str_eq, str_eq_iff, arith, exists, select,
}
use webhook_service.Domain.Event.{Time, Event}
use webhook_service.Domain.Delivery.{Delivery}
use webhook_service.Domain.Projection.{EventProjection}
use webhook_service.Repository.World.{Database}
use webhook_service.Repository.Rows.{
  exists-update_where, All-of_In, All-In, In-exists, In-select, exists-In,
}
use webhook_service.Repository.Keys.{All-select, Distinct-update_where, Distinct-select}
use webhook_service.Repository.Initialize.{same_pair}
use webhook_service.Repository.Outcome.{project_row}
use webhook_service.Repository.Outcome.Projection.{id-project_row, project_event_row}
use webhook_service.Repository.Retention.{is_chosen_id, delete_rows}
use webhook_service.Repository.Invariant.{same_event, same_delivery, IsValid}

-- The projection of an event.
pub project_event_row-IsValid :
    (tx_now : Time) (id : GoString) (p : EventProjection) (db : Database)
    → IsValid db
    → IsValid (project_event_row tx_now id p db)
project_event_row-IsValid tx_now id p db h =
    let this = λ (e : Event). str_eq e.id id in
    let f = project_row tx_now p in
    record {
      rows = h.rows;
      parents = All-of_In _ db.deliveries λ d i.
          exists-update_where (λ (e : Event). str_eq e.id d.event_id) this f db.events
            (λ e. ap (λ x. str_eq x d.event_id) (id-project_row tx_now p e))
          ∙ All-In _ d db.deliveries h.parents i;
      event_keys =
          Distinct-update_where same_event this f
            (λ x y. ap (str_eq y.id) (id-project_row tx_now p x))
            (λ x y. ap (λ i. str_eq i x.id) (id-project_row tx_now p y)) db.events h.event_keys;
      delivery_keys = h.delivery_keys;
      pair_keys = h.pair_keys;
    }

kept-parent :
    (chosen events : List Event) (id : GoString)
    → is_chosen_id chosen id ≡ false
    → exists (λ (e : Event). str_eq e.id id) events ≡ true
    → exists
        (λ (e : Event). str_eq e.id id)
        (select (λ (e : Event). not (is_chosen_id chosen e.id)) events)
      ≡ true
kept-parent chosen events id free there =
    let (e, i, same) = In-exists (λ (e : Event). str_eq e.id id) events there in
    exists-In (λ (e : Event). str_eq e.id id) e _
      (In-select _ e events i
        (ap not (ap (is_chosen_id chosen) ((str_eq_iff e.id id).0 same) ∙ free)))
      same

-- The delete of a cleanup, which takes along what refers to the events.
pub delete_rows-IsValid :
    (chosen : List Event) (db : Database) → IsValid db → IsValid (delete_rows chosen db).1
unfolding delete_rows
delete_rows-IsValid chosen db h =
    let stays = λ (d : Delivery). not (is_chosen_id chosen d.event_id) in
    record {
      rows = All-of_In _ _ λ d i. (All-In _ d _ (All-select _ stays db.deliveries h.rows) i).0;
      parents = All-of_In _ _ λ d i.
          let (there, free) = All-In _ d _ (All-select _ stays db.deliveries h.parents) i in
          kept-parent chosen db.events d.event_id (ground (arith, free)) there;
      event_keys = Distinct-select same_event _ db.events h.event_keys;
      delivery_keys = Distinct-select same_delivery stays db.deliveries h.delivery_keys;
      pair_keys = Distinct-select same_pair stays db.deliveries h.pair_keys;
    }
