-- ===== src/Repository/Outcome/Fence.antt =====
-- The fence of `PersistClaimedDeliveryOutcome`: an outcome is written only over the row that is
-- still processing under the same owner and deadline, at once with its attempts and the event.
use webhook_service.Prelude.{
  ℕ, suc, ◌≡◌, refl, sym, ap, ◌∙◌, Option, none, some, List, map, ◌++◌, GoString, arith,
  update_where, count_where, Option-cases, Bool-cases, true, false, ◌≢◌, [], ◌∷◌, inl, inr,
  str_eq_iff,
}
use webhook_service.Domain.Event.{Time, Err, DeliveryAttempt}
use webhook_service.Domain.Delivery.{Delivery}
use webhook_service.Domain.Projection.{project_event}
use webhook_service.Repository.World.{Database, World, Environment, ok, err, advance, exec, ◌>>=◌}
use webhook_service.Repository.World.Inversion.{>>=-eq-ok, transaction-eq-ok, transaction_atomic}
use webhook_service.Repository.Rows.{In, none_counted, count_none}
use webhook_service.Repository.Reads.{deliveries_of}
use webhook_service.Repository.Outcome.{
  fenced, with_outcome, update_outcome, insert_attempts, update_event_projection, persist_body,
  lease_held, persist_claimed_delivery_outcome,
}
use webhook_service.Repository.Outcome.Projection.{project_event_row, update_event_projection-ok}
use webhook_service.Repository.Outcome.Attempts.{attempt_rows, insert_attempts-ok}

-- The tables with the event's row projected at the instant `now` from its delivery rows.
abbrev pub projected : Environment → Time → Time → GoString → Database → Database
projected env now tx_now id db =
    project_event_row tx_now id (project_event now (map some (deliveries_of env id db))) db

-- The tables after the outcome of `d` and its attempts have been written under a lease.
abbrev pub outcome_written :
    Time → ℕ → GoString → Time → Delivery → List DeliveryAttempt → Database → Database
outcome_written tx_now serial owner deadline d attempts db = record db {
  deliveries = update_where (fenced d.id owner deadline) (with_outcome d) db.deliveries;
  attempts = db.attempts ++ attempt_rows serial tx_now d attempts;
}

persist_body_step :
    (env : Environment) (tx_now : Time) (owner : GoString) (deadline : Time) (d : Delivery)
    (attempts : List DeliveryAttempt) (w : World)
    → (persist_body env tx_now owner deadline d attempts w).0 ≡ ok tt
    → ((update_outcome owner deadline d w.db).0 ≡ 1)
      × (persist_body env tx_now owner deadline d attempts w
          ≡ (insert_attempts env tx_now d attempts >>= λ _.
                update_event_projection env tx_now d.event_id)
              (record (advance w) { db = (update_outcome owner deadline d w.db).1 }))
unfolding persist_body exec
persist_body_step env tx_now owner deadline d attempts w h = ground arith

persist_body-ok :
    (env : Environment) (tx_now : Time) (owner : GoString) (deadline : Time) (d : Delivery)
    (attempts : List DeliveryAttempt) (w : World)
    → (persist_body env tx_now owner deadline d attempts w).0 ≡ ok tt
    → (now : Time) × (count_where (fenced d.id owner deadline) w.db.deliveries ≡ 1)
      × ((persist_body env tx_now owner deadline d attempts w).1.db
          ≡ projected env now tx_now d.event_id
              (outcome_written tx_now w.serial owner deadline d attempts w.db))
unfolding update_outcome
persist_body-ok env tx_now owner deadline d attempts w h =
    let (one, e) = persist_body_step env tx_now owner deadline d attempts w h in
    let w1 : World = record (advance w) { db = (update_outcome owner deadline d w.db).1 } in
    let project = update_event_projection env tx_now d.event_id in
    let (u, e1, e2) =
      >>=-eq-ok (insert_attempts env tx_now d attempts) (λ _. project) w1
        (sym (ap (λ r. r.0) e) ∙ h) in
    let inserted = insert_attempts-ok env tx_now d attempts w1 e1 in
    let w2 = (insert_attempts env tx_now d attempts w1).1 in
    let p =
      update_event_projection-ok env tx_now d.event_id w2 (sym (ap (λ r. r.0) (e ∙ e2)) ∙ h) in
    let now = env.now (suc w2.tick) in
    (now, one, ap (λ r. r.1.db) (e ∙ e2) ∙ p.0 ∙ ap (projected env now tx_now d.event_id) inserted)

lease_held-parts :
    (d : Delivery) (owner : GoString) (deadline : Time)
    → lease_held d ≡ some (owner, deadline)
    → (d.processing_owner ≡ some owner) × (d.processing_deadline ≡ some deadline)
lease_held-parts d owner deadline h = ground arith

-- A persist that succeeds found exactly one row with this id that was processing under this owner
-- and deadline; it wrote the outcome over that row and cleared its lease, appended the attempts, set
-- the event's row to the projection of its delivery rows, and changed nothing else.
pub persist_claimed_delivery_outcome-ok :
    (env : Environment) (d : Delivery) (attempts : List DeliveryAttempt) (w : World)
    → (persist_claimed_delivery_outcome env (some d) attempts w).0 ≡ ok tt
    → (owner : GoString) × (deadline : Time) × (now : Time) × (d.processing_owner ≡ some owner)
      × (d.processing_deadline ≡ some deadline)
      × (count_where (fenced d.id owner deadline) w.db.deliveries ≡ 1)
      × ((persist_claimed_delivery_outcome env (some d) attempts w).1.db
          ≡ projected env now
              (env.db_now w.tick)
              d.event_id
              (outcome_written (env.db_now w.tick) w.serial owner deadline d attempts w.db))
unfolding persist_claimed_delivery_outcome
persist_claimed_delivery_outcome-ok env d attempts w h = elim (Option-cases (lease_held d)) [
  | inl unleased ↦ absurd (cc (rw unleased at h))
  | inr ((owner, deadline), l) ↦
      let (e, f) =
        transaction-eq-ok env (λ tx_now. persist_body env tx_now owner deadline d attempts) w
          (rw l at h) in
      let (now, one, g) =
        persist_body-ok env (env.db_now w.tick) owner deadline d attempts (advance w) e in
      let held = lease_held-parts d owner deadline l in
      (owner, deadline, now, held.0, held.1, one, rw l (f ∙ g))
]

-- A persist that fails changes no table.
pub persist_claimed_delivery_outcome_atomic :
    (env : Environment) (delivery : Option Delivery) (attempts : List DeliveryAttempt) (w : World)
    {e : Err}
    → (persist_claimed_delivery_outcome env delivery attempts w).0 ≡ err e
    → (persist_claimed_delivery_outcome env delivery attempts w).1.db ≡ w.db
unfolding persist_claimed_delivery_outcome
persist_claimed_delivery_outcome_atomic env none attempts w h = refl
persist_claimed_delivery_outcome_atomic env (some d) attempts w h =
    elim (Option-cases (lease_held d)) [
      | inl unleased ↦ rw unleased refl
      | inr ((owner, deadline), e) ↦ rw e (
          transaction_atomic env (λ tx_now. persist_body env tx_now owner deadline d attempts) w
            (rw e at h))
    ]

not_fenced-with_outcome :
    (id owner : GoString) (deadline : Time) (d row : Delivery)
    → fenced id owner deadline (with_outcome d row) ≡ false
unfolding fenced with_outcome
not_fenced-with_outcome id owner deadline d row = ground arith

-- Once an outcome is written under a lease, no row is fenced by it.
fenced-used_up :
    (id owner : GoString) (deadline : Time) (d : Delivery) (rows : List Delivery)
    → let mine = fenced id owner deadline in
      count_where mine (update_where mine (with_outcome d) rows) ≡ 0
fenced-used_up id owner deadline d [] = refl
fenced-used_up id owner deadline d (row ∷ rows) = elim (Bool-cases (fenced id owner deadline row)) [
  | inl hit ↦ rw hit (
      rw (not_fenced-with_outcome id owner deadline d row)
        (fenced-used_up id owner deadline d rows))
  | inr miss ↦ rw miss (rw miss (fenced-used_up id owner deadline d rows))
]

fenced_id :
    (id owner : GoString) (deadline : Time) (e : Delivery)
    → fenced id owner deadline e ≡ true
    → e.id ≡ id
unfolding fenced
fenced_id id owner deadline e h = (str_eq_iff e.id id).0 (ground (arith, h))

-- Rows of this id stand in the one table, if they do, as they stood in the other.
abbrev pub RowUntouched : GoString → Database → Database → Type 0
RowUntouched id after mid = (e : Delivery) → In e mid.deliveries → e.id ≡ id → In e after.deliveries

still_used_up :
    (id owner : GoString) (deadline : Time) (after mid : Database)
    → RowUntouched id after mid
    → count_where (fenced id owner deadline) after.deliveries ≡ 0
    → count_where (fenced id owner deadline) mid.deliveries ≡ 0
still_used_up id owner deadline after mid untouched z =
    count_none (fenced id owner deadline) mid.deliveries λ e i.
      elim (Bool-cases (fenced id owner deadline e)) [
        | inl hit ↦
            let j = untouched e i (fenced_id id owner deadline e hit) in
            none_counted (fenced id owner deadline) after.deliveries e z j
        | inr miss ↦ miss
      ]

-- A lease serves one outcome: where a persist has succeeded, a second one for the same delivery under
-- the same owner and deadline does not, while the row stands as the first one left it. What happened to
-- other rows in between does not matter.
pub persist_once :
    (env env' : Environment) (d d' : Delivery) (attempts attempts' : List DeliveryAttempt)
    (w w' : World)
    → (persist_claimed_delivery_outcome env (some d) attempts w).0 ≡ ok tt
    → RowUntouched d.id (persist_claimed_delivery_outcome env (some d) attempts w).1.db w'.db
    → d'.id ≡ d.id
    → d'.processing_owner ≡ d.processing_owner
    → d'.processing_deadline ≡ d.processing_deadline
    → (persist_claimed_delivery_outcome env' (some d') attempts' w').0 ≢ ok tt
persist_once env env' d d' attempts attempts' w w' first untouched id same_owner same_deadline
      second =
    let (owner, deadline, now, ho, hd, one, db') =
      persist_claimed_delivery_outcome-ok env d attempts w first in
    let (owner', deadline', now', ho', hd', one', db'') =
      persist_claimed_delivery_outcome-ok env' d' attempts' w' second in
    let used = fenced-used_up d.id owner deadline d w.db.deliveries in
    let eo : owner' ≡ owner = cc in
    let ed : deadline' ≡ deadline = cc in
    let f : fenced d'.id owner' deadline' ≡ fenced d.id owner deadline = cc in
    let rows = ap (λ (db : Database). db.deliveries) db' in
    let after = (persist_claimed_delivery_outcome env (some d) attempts w).1.db in
    let over = ap (count_where (fenced d.id owner deadline)) rows ∙ used in
    let z =
      ap (λ p. count_where p w'.db.deliveries) f
      ∙ still_used_up d.id owner deadline after w'.db untouched over in
    absurd (omega (arith, z, one'))
