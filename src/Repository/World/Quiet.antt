-- ===== src/Repository/World/Quiet.antt =====
-- Actions that tell the observers nothing, however they end.
use webhook_service.Prelude.{ℕ, ◌≡◌, refl, ◌∙◌, Bool, true, false, Option, none, some, arith}
use webhook_service.Domain.Event.{Time, Err}
use webhook_service.Repository.World.{
  Database, World, Environment, Result, ok, err, Action, and_then, written, ◌>>=◌, pure, throw,
  require, advance, time_now, query, exec, close_transaction, transaction,
}

pub record Quiet {A : Type 0} (m : Action A) : Type 0 where
  pub untold : (w : World) → (m w).1.observed ≡ w.observed

pub Quiet-pure : {A : Type 0} (a : A) → Quiet (pure a)
Quiet-pure a = record { untold = λ w. refl }

pub Quiet-throw : {A : Type 0} (e : Err) → Quiet (throw {A = A} e)
Quiet-throw e = record { untold = λ w. refl }

Quiet-and_then :
    {A B : Type 0} (f : A → Action B) (r : Result A × World)
    → ((a : A) → Quiet (f a))
    → (and_then f r).1.observed ≡ r.1.observed
Quiet-and_then f (ok a, w) k = (k a).untold w
Quiet-and_then f (err e, w) k = refl

pub Quiet->>= :
    {A B : Type 0} {m : Action A} {f : A → Action B}
    → Quiet m
    → ((a : A) → Quiet (f a))
    → Quiet (m >>= f)
Quiet->>= {m = m} {f = f} q k = record { untold = λ w. Quiet-and_then f (m w) k ∙ q.untold w }

pub Quiet-require : (b : Bool) (e : Err) → Quiet (require b e)
Quiet-require true e = Quiet-pure tt
Quiet-require false e = Quiet-throw e

pub Quiet-time_now : (env : Environment) → Quiet (time_now env)
unfolding time_now
Quiet-time_now env = record { untold = λ w. refl }

pub Quiet-query :
    {A : Type 0} (env : Environment) (f : Time → ℕ → Database → A) → Quiet (query env f)
unfolding query
Quiet-query env f = record { untold = λ w. ground arith }

Quiet-written :
    {A : Type 0} (w : World) (o : Option (A × Database)) → (written w o).1.observed ≡ w.observed
Quiet-written w none = refl
Quiet-written w (some r) = refl

pub Quiet-exec :
    {A : Type 0} (env : Environment) (f : Time → ℕ → Database → Option (A × Database))
    → Quiet (exec env f)
unfolding exec
Quiet-exec env f = record {
  untold = λ w. ground (arith, Quiet-written (advance w) (f (env.db_now w.tick) w.tick w.db));
}

Quiet-close_transaction :
    {A : Type 0} (env : Environment) (before : Database) (r : Result A × World)
    → (close_transaction env before r).1.observed ≡ r.1.observed
unfolding close_transaction
Quiet-close_transaction env before (ok a, w) = ground arith
Quiet-close_transaction env before (err e, w) = refl

pub Quiet-transaction :
    {A : Type 0} (env : Environment) (body : Time → Action A)
    → ((now : Time) → Quiet (body now))
    → Quiet (transaction env body)
unfolding transaction
Quiet-transaction env body k = record {
  untold = λ w. ground (
    arith,
    Quiet-close_transaction env w.db (body (env.db_now w.tick) (advance w)),
    (k (env.db_now w.tick)).untold (advance w),
  );
}
