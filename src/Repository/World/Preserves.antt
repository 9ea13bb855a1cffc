-- ===== src/Repository/World/Preserves.antt =====
-- Actions that keep a property of the tables, however they end: with a result, with an error, or
-- rolled back.
use webhook_service.Prelude.{
  ℕ, ◌≡◌, refl, Bool, true, false, Option, none, some, Bool-cases, inl, inr, if◌then◌else◌, ap,
  subst,
}
use webhook_service.Domain.Event.{Time, Err}
use webhook_service.Repository.World.{
  Database, World, Environment, Result, ok, err, Action, and_then, written, ◌>>=◌, pure, throw,
  require, advance, time_now, query, exec, close_transaction, transaction,
}

pub record Preserves {A : Type 0} (P : Database → Type 0) (m : Action A) : Type 0 where
  pub keeps : (w : World) → P w.db → P (m w).1.db

Preserves-close :
    {A : Type 0} (P : Database → Type 0) (env : Environment) (before : Database)
    (r : Result A × World)
    → P before
    → P r.1.db
    → P (close_transaction env before r).1.db
unfolding close_transaction
Preserves-close P env before (ok a, w) b h = elim (Bool-cases (env.statement_fails w.tick)) [
  | inl fails ↦ rw fails b
  | inr runs ↦ rw runs h
]
Preserves-close P env before (err e, w) b h = b

some_injective : {A : Type 0} {x y : A} → some x ≡ some y → x ≡ y
some_injective h = cc

module _ {P : Database → Type 0} where
  pub Preserves-pure : {A : Type 0} (a : A) → Preserves P (pure a)
  Preserves-pure a = record { keeps = λ w h. h }

  pub Preserves-throw : {A : Type 0} (e : Err) → Preserves P (throw {A = A} e)
  Preserves-throw e = record { keeps = λ w h. h }

  Preserves-and_then :
      {A B : Type 0} (f : A → Action B) (r : Result A × World)
      → ((a : A) → Preserves P (f a))
      → P r.1.db
      → P (and_then f r).1.db
  Preserves-and_then f (ok a, w) k h = (k a).keeps w h
  Preserves-and_then f (err e, w) k h = h

  pub Preserves->>= :
      {A B : Type 0} {m : Action A} {f : A → Action B}
      → Preserves P m
      → ((a : A) → Preserves P (f a))
      → Preserves P (m >>= f)
  Preserves->>= {m = m} {f = f} p k = record {
    keeps = λ w h. Preserves-and_then f (m w) k (p.keeps w h);
  }

  Preserves-and_then_ok :
      {A B : Type 0} (f : A → Action B) (r : Result A × World)
      → ((a : A) → r.0 ≡ ok a → Preserves P (f a))
      → P r.1.db
      → P (and_then f r).1.db
  Preserves-and_then_ok f (ok a, w) k h = (k a refl).keeps w h
  Preserves-and_then_ok f (err e, w) k h = h

  -- Where the rest is known to keep the property only of the results that the first part gives.
  pub Preserves->>=_ok :
      {A B : Type 0} {m : Action A} {f : A → Action B}
      → Preserves P m
      → ((w : World) (a : A) → (m w).0 ≡ ok a → Preserves P (f a))
      → Preserves P (m >>= f)
  Preserves->>=_ok {m = m} {f = f} p k = record {
    keeps = λ w h. Preserves-and_then_ok f (m w) (k w) (p.keeps w h);
  }

  pub Preserves-require : (b : Bool) (e : Err) → Preserves P (require b e)
  Preserves-require true e = Preserves-pure tt
  Preserves-require false e = Preserves-throw e

  pub Preserves-if :
      {A : Type 0} (b : Bool) {m n : Action A}
      → Preserves P m
      → Preserves P n
      → Preserves P (if b then m else n)
  Preserves-if true p q = p
  Preserves-if false p q = q

  pub Preserves-time_now : (env : Environment) → Preserves P (time_now env)
  unfolding time_now
  Preserves-time_now env = record { keeps = λ w h. h }

  pub Preserves-query :
      {A : Type 0} (env : Environment) (f : Time → ℕ → Database → A) → Preserves P (query env f)
  unfolding query
  Preserves-query env f = record {
    keeps = λ w h. elim (Bool-cases (env.statement_fails w.tick)) [
      | inl fails ↦ rw fails h
      | inr runs ↦ rw runs h
    ];
  }

  Preserves-written :
      {A : Type 0} (w : World) (o : Option (A × Database))
      → P w.db
      → ((a : A) (db' : Database) → o ≡ some (a, db') → P db')
      → P (written w o).1.db
  Preserves-written w none h k = h
  Preserves-written w (some (a, db')) h k = k a db' refl

  pub Preserves-exec :
      {A : Type 0} (env : Environment) (f : Time → ℕ → Database → Option (A × Database))
      → ((now : Time) (tick : ℕ) (db : Database) (a : A) (db' : Database)
          → f now tick db ≡ some (a, db')
          → P db
          → P db')
      → Preserves P (exec env f)
  unfolding exec
  Preserves-exec env f k = record {
    keeps = λ w h. elim (Bool-cases (env.statement_fails w.tick)) [
      | inl fails ↦ rw fails h
      | inr runs ↦ rw runs (
          Preserves-written (advance w) (f (env.db_now w.tick) w.tick w.db) h
            (λ a db' e. k (env.db_now w.tick) w.tick w.db a db' e h))
    ];
  }

  -- A statement that no constraint refuses.
  pub Preserves-exec_total :
      {A : Type 0} (env : Environment) (f : Time → ℕ → Database → A × Database)
      → ((now : Time) (tick : ℕ) (db : Database) → P db → P (f now tick db).1)
      → Preserves P (exec env (λ now tick db. some (f now tick db)))
  Preserves-exec_total {A = A} env f k = Preserves-exec env _ λ now tick db a db' e h.
      subst P (ap (λ (r : A × Database). r.1) (some_injective e)) (k now tick db h)

  -- One that is refused under a condition.
  pub Preserves-exec_unless :
      {A : Type 0} (env : Environment) (b : Bool) (f : Time → ℕ → Database → A × Database)
      → ((now : Time) (tick : ℕ) (db : Database) → P db → P (f now tick db).1)
      → Preserves P (exec env (λ now tick db. if b then none else some (f now tick db)))
  Preserves-exec_unless env true f k = Preserves-exec env _ (λ now tick db a db' e h. absurd (cc))
  Preserves-exec_unless env false f k = Preserves-exec_total env f k

  pub Preserves-transaction :
      {A : Type 0} (env : Environment) (body : Time → Action A)
      → ((now : Time) → Preserves P (body now))
      → Preserves P (transaction env body)
  unfolding transaction
  Preserves-transaction env body k = record {
    keeps = λ w h. elim (Bool-cases (env.statement_fails w.tick)) [
      | inl fails ↦ rw fails h
      | inr runs ↦ rw runs (
          Preserves-close P env w.db (body (env.db_now w.tick) (advance w)) h
            ((k (env.db_now w.tick)).keeps (advance w) h))
    ];
  }
