-- ===== src/Repository/Replay/Generation.antt =====
-- A replay that is accepted opens a new generation of one failed delivery, and a refused one changes
-- no table.
use webhook_service.Prelude.{
  suc, ◌≡◌, sym, ap, ◌∙◌, none, some, ◌&&◌, GoString, str_eq, arith, update_where, Option-cases,
  inl, inr, ◌⊎◌, refl, subst, Bool, true, List, [], ◌∷◌, Bool-cases,
}
use webhook_service.Prelude.Int.{pos, ◌+ℤ◌}
use webhook_service.Domain.Event.{Time, Err, not_found, unavailable}
use webhook_service.Domain.Delivery.{Delivery, DeliveryStatus, status_eq, schedule_replay}
use webhook_service.Repository.World.{
  Database, World, Environment, ok, err, advance, query, exec, pure, ◌>>=◌,
}
use webhook_service.Repository.World.Inversion.{>>=-eq-ok, transaction-eq-ok, transaction_atomic}
use webhook_service.Repository.Reads.{find}
use webhook_service.Repository.Outcome.{update_event_projection}
use webhook_service.Repository.Outcome.Projection.{update_event_projection-ok}
use webhook_service.Repository.Outcome.Fence.{projected}
use webhook_service.Repository.Replay.{
  with_replay, update_replay, replay_body, replay_failed_delivery,
}

-- The tables after the delivery `d` has been written over the failed row with this id.
abbrev pub replay_written : GoString → Delivery → Database → Database
replay_written id d db = record db {
  deliveries =
      update_where (λ row. str_eq row.id id && status_eq row.status DeliveryStatus.failed)
        (with_replay d) db.deliveries;
}

replay_body_step :
    (env : Environment) (tx_now : Time) (id : GoString) (at : Time) (w : World) (row d : Delivery)
    → find (λ (x : Delivery). str_eq x.id id) w.db.deliveries ≡ some row
    → (replay_body env tx_now id at w).0 ≡ ok d
    → (row.status ≡ DeliveryStatus.failed)
      × ((schedule_replay at row).0 ≡ none)
      × (replay_body env tx_now id at w
          ≡ (update_event_projection env tx_now (schedule_replay at row).1.event_id >>= λ _.
                pure (schedule_replay at row).1)
              (record w {
                db = (update_replay id (schedule_replay at row).1 w.db).1;
                tick = suc (suc w.tick);
              }))
unfolding replay_body query exec schedule_replay
replay_body_step env tx_now id at w row d f h = ground arith

replay_body_missing :
    (env : Environment) (tx_now : Time) (id : GoString) (at : Time) (w : World)
    → find (λ (x : Delivery). str_eq x.id id) w.db.deliveries ≡ none
    → ((replay_body env tx_now id at w).0 ≡ err not_found)
      ⊎ ((replay_body env tx_now id at w).0 ≡ err unavailable)
unfolding replay_body query
replay_body_missing env tx_now id at w f = ground arith

some_injective : {A : Type 0} {x y : A} → some x ≡ some y → x ≡ y
some_injective h = cc

ok_of : {a b : Delivery} → ok a ≡ ok b → a ≡ b
ok_of h = cc

-- The first row that passes is still the first one after it, and only rows that pass, have been written.
find-update_where :
    {A : Type 0} (p g : A → Bool) (f : A → A) (xs : List A) (row : A)
    → find p xs ≡ some row
    → g row ≡ true
    → p (f row) ≡ true
    → find p (update_where (λ x. p x && g x) f xs) ≡ some (f row)
find-update_where p g f [] row found written same = absurd (cc found)
find-update_where p g f (x ∷ xs) row found written same = elim (Bool-cases (p x)) [
  | inl hit ↦ let e : x ≡ row = some_injective (rw hit at found) in rw (hit, e, written, same) refl
  | inr miss ↦
      let rest = rw miss at found in
      rw (miss, miss) (find-update_where p g f xs row rest written same)
]

-- The failed delivery, opened again: the next generation, without attempts, due at the instant.
abbrev pub reopened : Time → Delivery → Delivery
reopened at row = record row {
  generation = row.generation +ℤ pos 1;
  status = DeliveryStatus.retrying;
  attempts = pos 0;
  next_attempt_at = some at;
  last_error = none;
  delivered_at = none;
  processing_owner = none;
  processing_deadline = none;
  updated_at = at;
}

schedule_replay-reopened :
    (at : Time) (row : Delivery)
    → row.status ≡ DeliveryStatus.failed
    → (schedule_replay at row).1 ≡ reopened at row
unfolding schedule_replay
schedule_replay-reopened at row failed = ground (arith, failed)

with_replay-reopened :
    (at : Time) (row : Delivery) → with_replay (reopened at row) row ≡ reopened at row
unfolding with_replay
with_replay-reopened at row = refl

find_id :
    (id : GoString) (rows : List Delivery) (row : Delivery)
    → find (λ (x : Delivery). str_eq x.id id) rows ≡ some row
    → str_eq row.id id ≡ true
find_id id [] row h = absurd (cc h)
find_id id (x ∷ rows) row h = elim (Bool-cases (str_eq x.id id)) [
  | inl hit ↦
      let e : x ≡ row = some_injective (rw hit at h) in
      subst (λ (y : Delivery). str_eq y.id id ≡ true) e hit
  | inr miss ↦ find_id id rows row (rw miss at h)
]

-- Who reads the row of this id afterwards finds the reopened delivery.
read_back :
    (env : Environment) (now tx_now at : Time) (id event_id : GoString) (db : Database)
    (row : Delivery)
    → find (λ (x : Delivery). str_eq x.id id) db.deliveries ≡ some row
    → row.status ≡ DeliveryStatus.failed
    → find
        (λ (x : Delivery). str_eq x.id id)
        (projected env now tx_now event_id (replay_written id (reopened at row) db)).deliveries
      ≡ some (reopened at row)
unfolding with_replay
read_back env now tx_now at id event_id db row found failed =
    find-update_where (λ (x : Delivery). str_eq x.id id)
      (λ (x : Delivery). status_eq x.status DeliveryStatus.failed) (with_replay (reopened at row))
      db.deliveries row found (rw failed refl) (find_id id db.deliveries row found)

pub replay_failed_delivery-ok :
    (env : Environment) (id : GoString) (at : Time) (w : World) {d : Delivery}
    → (replay_failed_delivery env id at w).0 ≡ ok d
    → (row : Delivery) × (now : Time) × (find (λ (x : Delivery). str_eq x.id id) w.db.deliveries
        ≡ some row)
      × (row.status ≡ DeliveryStatus.failed)
      × (d ≡ reopened at row)
      × (find
            (λ (x : Delivery). str_eq x.id id)
            (replay_failed_delivery env id at w).1.db.deliveries
          ≡ some d)
      × ((replay_failed_delivery env id at w).1.db
          ≡ projected env now (env.db_now w.tick) d.event_id (replay_written id d w.db))
unfolding replay_failed_delivery update_replay
replay_failed_delivery-ok env id at w {d} h =
    let (e, f) = transaction-eq-ok env (λ tx_now. replay_body env tx_now id at) w h in
    let tx_now = env.db_now w.tick in
    elim (Option-cases (find (λ (x : Delivery). str_eq x.id id) w.db.deliveries)) [
      | inl missing ↦ elim (replay_body_missing env tx_now id at (advance w) missing) [
        | inl no_row ↦ absurd (cc)
        | inr fault ↦ absurd (cc)
      ]
      | inr (row, found) ↦
          let (failed, accepted, g) = replay_body_step env tx_now id at (advance w) row d found e in
          let d' = (schedule_replay at row).1 in
          let w1 : World = record w {
            db = (update_replay id d' w.db).1;
            tick = suc (suc (suc w.tick));
          } in
          let project = update_event_projection env tx_now d'.event_id in
          let (u, e1, e2) = >>=-eq-ok project (λ _. pure d') w1 (sym (ap (λ r. r.0) g) ∙ e) in
          let p = update_event_projection-ok env tx_now d'.event_id w1 e1 in
          let same : d' ≡ d = ok_of (sym (ap (λ r. r.0) (g ∙ e2)) ∙ e) in
          let now = env.now (suc w1.tick) in
          let after =
            λ (x : Delivery). projected env now tx_now x.event_id (replay_written id x w.db) in
          let opened : d ≡ reopened at row = sym same ∙ schedule_replay-reopened at row failed in
          let tables = f ∙ ap (λ r. r.1.db) (g ∙ e2) ∙ p.0 ∙ ap after same in
          let rows = ap (λ (db : Database). db.deliveries) (tables ∙ ap after opened) in
          (
            row,
            now,
            found,
            failed,
            opened,
            ap (find (λ (x : Delivery). str_eq x.id id)) rows
                ∙ read_back env now tx_now at id (reopened at row).event_id w.db row found failed
                ∙ ap some (sym opened),
            tables,
          )
    ]

-- A replay that fails changes no table.
pub replay_failed_delivery_atomic :
    (env : Environment) (id : GoString) (at : Time) (w : World) {e : Err}
    → (replay_failed_delivery env id at w).0 ≡ err e
    → (replay_failed_delivery env id at w).1.db ≡ w.db
unfolding replay_failed_delivery
replay_failed_delivery_atomic env id at w h =
    transaction_atomic env (λ tx_now. replay_body env tx_now id at) w h
