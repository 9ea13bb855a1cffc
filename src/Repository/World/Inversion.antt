-- ===== src/Repository/World/Inversion.antt =====
-- What an action that succeeded, or failed, says of its parts.
use webhook_service.Prelude.{◌≡◌, ◌⊎◌, refl, ℕ, Option, none, some, arith, Bool-cases, inl, inr}
use webhook_service.Domain.Event.{Time, Err}
use webhook_service.Repository.World.{
  Database, World, Environment, Result, ok, err, Action, and_then, written, ◌>>=◌, advance, query,
  exec, close_transaction, transaction,
}

pub Result-cases : {A : Type 0} (r : Result A) → ((a : A) × (r ≡ ok a)) ⊎ ((e : Err) × (r ≡ err e))
Result-cases (ok a) = inl (a, refl)
Result-cases (err e) = inr (e, refl)

and_then-eq-ok :
    {A B : Type 0} (f : A → Action B) (r : Result A × World) {b : B}
    → (and_then f r).0 ≡ ok b
    → (a : A) × (r.0 ≡ ok a) × (and_then f r ≡ f a r.1)
and_then-eq-ok f (ok a, w) h = (a, refl, refl)
and_then-eq-ok f (err e, w) h = absurd (cc)

-- A sequence succeeds by its first part and the rest.
pub >>=-eq-ok :
    {A B : Type 0} (m : Action A) (f : A → Action B) (w : World) {b : B}
    → ((m >>= f) w).0 ≡ ok b
    → (a : A) × ((m w).0 ≡ ok a) × ((m >>= f) w ≡ f a (m w).1)
>>=-eq-ok m f w h = and_then-eq-ok f (m w) h

close_transaction_atomic :
    {A : Type 0} (env : Environment) (before : Database) (r : Result A × World) {e : Err}
    → (close_transaction env before r).0 ≡ err e
    → (close_transaction env before r).1.db ≡ before
unfolding close_transaction
close_transaction_atomic env before (ok a, w) h = ground arith
close_transaction_atomic env before (err x, w) h = refl

-- A transaction that ends in an error leaves the tables as they were.
pub transaction_atomic :
    {A : Type 0} (env : Environment) (body : Time → Action A) (w : World) {e : Err}
    → (transaction env body w).0 ≡ err e
    → (transaction env body w).1.db ≡ w.db
unfolding transaction
transaction_atomic env body w h = elim (Bool-cases (env.statement_fails w.tick)) [
  | inl fails ↦ rw fails refl
  | inr begins ↦
      rw begins
        (close_transaction_atomic env w.db (body (env.db_now w.tick) (advance w)) (rw begins at h))
]

close_transaction-eq-ok :
    {A : Type 0} (env : Environment) (before : Database) (r : Result A × World) {a : A}
    → (close_transaction env before r).0 ≡ ok a
    → (r.0 ≡ ok a) × ((close_transaction env before r).1.db ≡ r.1.db)
unfolding close_transaction
close_transaction-eq-ok env before (ok x, w) h = ground arith
close_transaction-eq-ok env before (err x, w) h = cc

-- A transaction succeeds by its body, and leaves the tables as the body did.
pub transaction-eq-ok :
    {A : Type 0} (env : Environment) (body : Time → Action A) (w : World) {a : A}
    → (transaction env body w).0 ≡ ok a
    → let r = body (env.db_now w.tick) (advance w) in
      (r.0 ≡ ok a) × ((transaction env body w).1.db ≡ r.1.db)
unfolding transaction
transaction-eq-ok env body w h = elim (Bool-cases (env.statement_fails w.tick)) [
  | inl fails ↦ absurd (cc (rw fails at h))
  | inr begins ↦
      rw begins
        (close_transaction-eq-ok env w.db (body (env.db_now w.tick) (advance w)) (rw begins at h))
]

pub query-eq-ok :
    {A : Type 0} (env : Environment) (f : Time → ℕ → Database → A) (w : World) {a : A}
    → (query env f w).0 ≡ ok a
    → (a ≡ f (env.db_now w.tick) w.tick w.db) × ((query env f w).1 ≡ advance w)
unfolding query
query-eq-ok env f w h = ground arith

written-eq-ok :
    {A : Type 0} (w : World) (o : Option (A × Database)) {a : A}
    → (written w o).0 ≡ ok a
    → (db' : Database) × (o ≡ some (a, db')) × ((written w o).1 ≡ record w { db = db' })
written-eq-ok w none h = absurd (cc)
written-eq-ok w (some (x, db')) h = (db', cc, refl)

pub exec-eq-ok :
    {A : Type 0} (env : Environment) (f : Time → ℕ → Database → Option (A × Database)) (w : World)
    {a : A}
    → (exec env f w).0 ≡ ok a
    → (db' : Database) × (f (env.db_now w.tick) w.tick w.db ≡ some (a, db'))
      × ((exec env f w).1 ≡ record (advance w) { db = db' })
unfolding exec
exec-eq-ok env f w h = elim (Bool-cases (env.statement_fails w.tick)) [
  | inl fails ↦ absurd (cc (rw fails at h))
  | inr runs ↦
      rw runs (written-eq-ok (advance w) (f (env.db_now w.tick) w.tick w.db) (rw runs at h))
]
