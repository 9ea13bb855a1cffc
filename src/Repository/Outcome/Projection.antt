-- ===== src/Repository/Outcome/Projection.antt =====
-- What `updateEventProjection` does to the tables when it succeeds.
use webhook_service.Prelude.{
  suc, ◌≡◌, refl, some, map, GoString, str_eq, arith, update_where, count_where,
}
use webhook_service.Domain.Event.{Time, Event}
use webhook_service.Domain.Projection.{EventProjection, project_event}
use webhook_service.Repository.World.{Database, World, Environment, ok, time_now, query, exec}
use webhook_service.Repository.Reads.{deliveries_of, get_deliveries_by_event_id}
use webhook_service.Repository.Outcome.{project_row, update_event_projection}

-- The tables after the projection `p` of one event has been written.
abbrev pub project_event_row : Time → GoString → EventProjection → Database → Database
project_event_row tx_now id p db = record db {
  events = update_where (λ e. str_eq e.id id) (project_row tx_now p) db.events;
}

pub id-project_row : (t : Time) (p : EventProjection) (e : Event) → (project_row t p e).id ≡ e.id
unfolding project_row
id-project_row t p e = refl

pub update_event_projection-ok :
    (env : Environment) (tx_now : Time) (id : GoString) (w : World)
    → (update_event_projection env tx_now id w).0 ≡ ok tt
    → let p = project_event (env.now (suc w.tick)) (map some (deliveries_of env id w.db)) in
      ((update_event_projection env tx_now id w).1.db ≡ project_event_row tx_now id p w.db)
      × (count_where (λ (e : Event). str_eq e.id id) w.db.events ≡ 1)
unfolding update_event_projection get_deliveries_by_event_id query time_now exec
update_event_projection-ok env tx_now id w h = ground arith
