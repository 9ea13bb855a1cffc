-- ===== src/Repository/Retention/Expired.antt =====
-- What a cleanup deletes, and what it never deletes.
use webhook_service.Prelude.{
  ℕ, ◌≡◌, sym, ap, subst, ◌≤◌, ◌⊎◌, inl, inr, Bool, true, false, not, ◌&&◌, List, GoString, str_eq,
  str_eq_iff, arith, All, exists, length, Bool-cases, and-true,
}
use webhook_service.Prelude.Int.{ℤ, pos_part}
use webhook_service.Domain.Event.{Time, Event}
use webhook_service.Domain.Delivery.{Delivery}
use webhook_service.Repository.World.{Database, World, Environment, ok, exec}
use webhook_service.Repository.Rows.{In, In-select, In-exists, exists-In, All-In, All-of_In}
use webhook_service.Repository.Page.{page-In, length-page-le}
use webhook_service.Repository.Retention.{
  is_terminal, is_live_of, is_expired, event_candidates, is_chosen_id, delete_rows,
  delete_terminal_events,
}

-- The cleanup chose these events, at most `limit` of them: each is terminal, was not touched since
-- `before`, and has no delivery that is not terminal. It deleted them with their deliveries and the
-- attempts of these. Every delivery that is not terminal stands in the new tables.
pub record Cleaned (before : Time) (limit : ℕ) (old : Database) (n : ℕ) (new : Database)
    : Type 0 where
  pub chosen : List Event
  pub bounded : length chosen ≤ limit
  pub expired : All (λ e. In e old.events × (is_expired before old.deliveries e ≡ true)) chosen
  pub deleted : delete_rows chosen old ≡ (n, new)
  pub kept : All (λ d. (is_terminal d.status ≡ true) ⊎ In d new.deliveries) old.deliveries

expired-dead :
    (before : Time) (deliveries : List Delivery) (e : Event)
    → is_expired before deliveries e ≡ true
    → exists (is_live_of e.id) deliveries ≡ false
unfolding is_expired
expired-dead before deliveries e h = ground arith

-- The event of a delivery that is not terminal is not chosen.
not_chosen :
    (before : Time) (chosen events : List Event) (deliveries : List Delivery) (d : Delivery)
    → All (λ e. In e events × (is_expired before deliveries e ≡ true)) chosen
    → In d deliveries
    → is_terminal d.status ≡ false
    → is_chosen_id chosen d.event_id ≡ false
not_chosen before chosen events deliveries d ex i live =
    elim (Bool-cases (is_chosen_id chosen d.event_id)) [
      | inr passed ↦ passed
      | inl picked ↦
          let (c, ic, same) = In-exists (λ (c : Event). str_eq c.id d.event_id) chosen picked in
          let dead = expired-dead before deliveries c (All-In _ c chosen ex ic).1 in
          let id : d.event_id ≡ c.id = sym ((str_eq_iff c.id d.event_id).0 same) in
          let alive : is_live_of c.id d ≡ true =
            ground (arith, (str_eq_iff d.event_id c.id).1 id, live) in
          absurd (cc (dead, exists-In (is_live_of c.id) d deliveries i alive))
    ]

kept-delete_rows :
    (before : Time) (chosen : List Event) (db : Database)
    → All (λ e. In e db.events × (is_expired before db.deliveries e ≡ true)) chosen
    → All
        (λ d. (is_terminal d.status ≡ true) ⊎ In d (delete_rows chosen db).1.deliveries)
        db.deliveries
unfolding delete_rows
kept-delete_rows before chosen db ex = All-of_In _ db.deliveries λ d i.
    elim (Bool-cases (is_terminal d.status)) [
      | inl done ↦ inl done
      | inr live ↦
          let stays = not_chosen before chosen db.events db.deliveries d ex i live in
          inr
            (In-select (λ x. not (is_chosen_id chosen x.event_id)) d db.deliveries i (ap not stays))
    ]

candidates-expired :
    (collate : GoString → GoString → Bool) (before : Time) (locked : GoString → Bool) (n : ℕ)
    (deliveries : List Delivery) (events : List Event)
    → All
        (λ e. In e events × (is_expired before deliveries e ≡ true))
        (event_candidates collate
          (λ e. is_expired before deliveries e && not (locked e.id))
          n
          events)
unfolding event_candidates
candidates-expired collate before locked n deliveries events = All-of_In _ _ λ e i.
    let (there, passes) = All-In _ e _ (page-In _ _ n events) i in
    (there, (and-true (is_expired before deliveries e) (not (locked e.id)) passes).0)

length-event_candidates-le :
    (collate : GoString → GoString → Bool) (p : Event → Bool) (n : ℕ) (events : List Event)
    → length (event_candidates collate p n events) ≤ n
unfolding event_candidates
length-event_candidates-le collate p n events = length-page-le _ p n events

delete_terminal_events_step :
    (env : Environment) (before : Time) (limit : ℤ) (w : World) {n : ℕ}
    → (delete_terminal_events env before limit w).0 ≡ ok n
    → let chosen =
        event_candidates env.collate
          (λ e. is_expired before w.db.deliveries e && not (env.locked_event w.tick e.id))
          (pos_part limit)
          w.db.events in
      delete_rows chosen w.db ≡ (n, (delete_terminal_events env before limit w).1.db)
unfolding delete_terminal_events exec
delete_terminal_events_step env before limit w h = ground arith

-- A cleanup of events that succeeds deletes at most its limit of events, with all that hangs on them,
-- and only those that are terminal, untouched since the given instant and without a delivery that is
-- not terminal: every delivery that is not terminal is kept.
pub delete_terminal_events-Cleaned :
    (env : Environment) (before : Time) (limit : ℤ) (w : World) {n : ℕ}
    → (delete_terminal_events env before limit w).0 ≡ ok n
    → Cleaned before (pos_part limit) w.db n (delete_terminal_events env before limit w).1.db
delete_terminal_events-Cleaned env before limit w h =
    let passes =
      λ (e : Event). is_expired before w.db.deliveries e && not (env.locked_event w.tick e.id) in
    let chosen = event_candidates env.collate passes (pos_part limit) w.db.events in
    let ex =
      candidates-expired env.collate before (env.locked_event w.tick) (pos_part limit)
        w.db.deliveries w.db.events in
    let step = delete_terminal_events_step env before limit w h in
    record {
      chosen = chosen;
      bounded = length-event_candidates-le env.collate passes (pos_part limit) w.db.events;
      expired = ex;
      deleted = step;
      kept =
          subst
            (λ (r : ℕ × Database).
              All (λ (d : Delivery). (is_terminal d.status ≡ true) ⊎ In d r.1.deliveries)
                w.db.deliveries)
            step (kept-delete_rows before chosen w.db ex);
    }
