-- ===== src/Repository/Outcome/Attempts.antt =====
-- What the loop over the attempts appends to the table of attempts.
use webhook_service.Prelude.{ℕ, suc, ◌≡◌, sym, ◌∙◌, ap, List, [], ◌∷◌, ◌++◌, arith}
use webhook_service.Domain.Event.{Time, DeliveryAttempt}
use webhook_service.Domain.Delivery.{Delivery}
use webhook_service.Repository.World.{World, Environment, ok, exec}
use webhook_service.Repository.World.Inversion.{>>=-eq-ok}
use webhook_service.Repository.Outcome.{
  normalize_delivery, normalize_delivery_attempt, insert_attempt_row, insert_attempts,
}
use mathlib.Core.List.{append-nil, append_assoc}

-- The rows for the attempts of one delivery, numbered from `serial`.
abbrev pub attempt_rows : ℕ → Time → Delivery → List DeliveryAttempt → List DeliveryAttempt
attempt_rows serial tx_now d [] = []
attempt_rows serial tx_now d (a ∷ more) =
    record (normalize_delivery_attempt d a) { id = serial; created_at = tx_now }
    ∷ attempt_rows (suc serial) tx_now (normalize_delivery d) more

insert_attempt-ok :
    (env : Environment) (a : DeliveryAttempt) (w : World)
    → let r = exec env (λ _ _ db. insert_attempt_row a db) w in
      r.0 ≡ ok tt
      → r.1 ≡ record w {
        db = record (w.db) { attempts = w.db.attempts ++ (a ∷ []) };
        tick = suc w.tick;
      }
unfolding exec insert_attempt_row
insert_attempt-ok env a w h = ground arith

-- The world after one attempt has been stored.
abbrev after_attempt : Time → Delivery → DeliveryAttempt → World → World
after_attempt tx_now d a w = record w {
  db = record (w.db) { attempts = w.db.attempts ++ attempt_rows w.serial tx_now d (a ∷ []) };
  serial = suc w.serial;
  tick = suc w.tick;
}

insert_attempts_step :
    (env : Environment) (tx_now : Time) (d : Delivery) (a : DeliveryAttempt)
    (more : List DeliveryAttempt) (w : World)
    → (insert_attempts env tx_now d (a ∷ more) w).0 ≡ ok tt
    → insert_attempts env tx_now d (a ∷ more) w
      ≡ insert_attempts env tx_now (normalize_delivery d) more (after_attempt tx_now d a w)
unfolding insert_attempts
insert_attempts_step env tx_now d a more w h =
    let row : DeliveryAttempt = record (normalize_delivery_attempt d a) {
      id = w.serial;
      created_at = tx_now;
    } in
    let w1 : World = record w { serial = suc w.serial } in
    let rest = insert_attempts env tx_now (normalize_delivery d) more in
    let (u, e1, e2) = >>=-eq-ok (exec env (λ _ _ db. insert_attempt_row row db)) (λ _. rest) w1 h in
    e2 ∙ ap rest (insert_attempt-ok env row w1 e1)

-- A loop that succeeds has appended one row for each attempt, in order, and changed nothing else.
pub insert_attempts-ok :
    (env : Environment) (tx_now : Time) (d : Delivery) (as' : List DeliveryAttempt) (w : World)
    → (insert_attempts env tx_now d as' w).0 ≡ ok tt
    → (insert_attempts env tx_now d as' w).1.db
      ≡ record (w.db) { attempts = w.db.attempts ++ attempt_rows w.serial tx_now d as' }
insert_attempts-ok env tx_now d [] w h = unfold insert_attempts in cc (append-nil w.db.attempts)
insert_attempts-ok env tx_now d (a ∷ more) w h =
    let e = insert_attempts_step env tx_now d a more w h in
    let w' = after_attempt tx_now d a w in
    let ih =
      insert_attempts-ok env tx_now (normalize_delivery d) more w' (sym (ap (λ r. r.0) e) ∙ h) in
    ap (λ r. r.1.db) e
    ∙ ih
    ∙ ap (λ (rows : List DeliveryAttempt). record (w.db) { attempts = rows })
        (append_assoc w.db.attempts (attempt_rows w.serial tx_now d (a ∷ []))
          (attempt_rows (suc w.serial) tx_now (normalize_delivery d) more))
