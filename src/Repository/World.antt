-- ===== src/Repository/World.antt =====
-- What the repositories run on: the four tables (migrations/001_initial.up.sql), and the answers of
-- the outside, which are parameters. An action takes the world to a result and the new world, as a
-- Go method that returns `(T, error)` does.
pub mod Inversion
pub mod Preserves
pub mod Quiet
use webhook_service.Prelude.{
  ℕ, suc, ◌≡◌, refl, Bool, true, false, Option, none, some, List, GoString, if◌then◌else◌,
}
use webhook_service.Domain.Event.{
  Duration, Time, Err, unavailable, constraint_violation, Event, DeliveryAttempt,
}
use webhook_service.Domain.Subscription.{Subscription}
use webhook_service.Domain.Delivery.{Delivery}

pub record Database : Type 0 where
  pub events : List Event
  pub deliveries : List Delivery
  pub attempts : List DeliveryAttempt
  pub subscriptions : List Subscription

-- What the delivery handler reports to its `DeliveryObserver` (internal/kafka/handler.go), and the
-- retention cleaner to its `Observer` (internal/retention/cleaner.go).
pub data Observation : Type 0 where
  attempt_bodies_redacted terminal_events_deleted : ℕ → Observation
  cycle_failed : Observation
  cycle_completed : Duration → Time → Observation
  delivered failed retrying throttled attempt_started : Observation
  attempt_duration : Duration → Observation
  rate_limited : GoString → Observation

-- `serial` is the sequence of `delivery_attempts.id`, which no rollback takes back; `tick` counts
-- the readings of the clock and the statements so far, and selects the answers of the outside;
-- `observed` is what the observer has been told, in order.
pub record World : Type 0 where
  pub db : Database
  pub serial : ℕ
  pub tick : ℕ
  pub observed : List Observation

-- The outside: the clocks of the process and of the database, whether a statement fails, which
-- rows other transactions hold locked, and the database's order of texts.
pub record Environment : Type 0 where
  pub now : ℕ → Time
  pub db_now : ℕ → Time
  pub statement_fails : ℕ → Bool
  pub locked : ℕ → GoString → Bool
  pub locked_event : ℕ → GoString → Bool
  pub locked_attempt : ℕ → ℕ → Bool
  pub collate : GoString → GoString → Bool

pub data Result {ℓ} (A : Type ℓ) : Type ℓ where
  ok : A → Result A
  err : Err → Result A

abbrev pub Action : Type 0 → Type 0
Action A = World → Result A × World

abbrev pub and_then : {A B : Type 0} → (A → Action B) → Result A × World → Result B × World
and_then f (ok a, w) = f a w
and_then f (err e, w) = (err e, w)

infixl 5 ◌>>=◌ ◌>>◌
abbrev pub ◌>>=◌ : {A B : Type 0} → Action A → (A → Action B) → Action B
◌>>=◌ m f w = and_then f (m w)

abbrev pub ◌>>◌ : {B : Type 0} → Action (Unit {0}) → Action B → Action B
m >> k = m >>= λ _. k

abbrev pub pure : {A : Type 0} → A → Action A
pure a w = (ok a, w)

abbrev pub throw : {A : Type 0} → Err → Action A
throw e w = (err e, w)

abbrev pub require : Bool → Err → Action (Unit {0})
require true e = pure tt
require false e = throw e

abbrev pub advance : World → World
advance w = record w { tick = suc w.tick }

-- `time.Now()`.
unfoldable pub time_now : Environment → Action Time
time_now env w = (ok (env.now w.tick), advance w)

-- A statement that reads; its time is `NOW()`.
unfoldable pub query : {A : Type 0} → Environment → (Time → ℕ → Database → A) → Action A
query env f w =
    if env.statement_fails w.tick
    then (err unavailable, advance w)
    else (ok (f (env.db_now w.tick) w.tick w.db), advance w)

abbrev pub written : {A : Type 0} → World → Option (A × Database) → Result A × World
written w none = (err constraint_violation, w)
written w (some (a, db')) = (ok a, record w { db = db' })

-- A statement that writes; `none` is a constraint that refuses it.
unfoldable pub exec :
    {A : Type 0} → Environment → (Time → ℕ → Database → Option (A × Database)) → Action A
exec env f w =
    if env.statement_fails w.tick
    then (err unavailable, advance w)
    else written (advance w) (f (env.db_now w.tick) w.tick w.db)

-- What the end of a transaction makes of its body's result: the commit, or the deferred rollback.
unfoldable pub close_transaction :
    {A : Type 0} → Environment → Database → Result A × World → Result A × World
close_transaction env before (ok a, w) =
    if env.statement_fails w.tick
    then (err unavailable, record (advance w) { db = before })
    else (ok a, advance w)
close_transaction env before (err e, w) = (err e, record w { db = before })

-- `pool.Begin`, the body, and `tx.Commit` or `tx.Rollback`. `NOW()` stands still in a transaction.
unfoldable pub transaction : {A : Type 0} → Environment → (Time → Action A) → Action A
unfolding close_transaction
transaction env body w =
    if env.statement_fails w.tick
    then (err unavailable, advance w)
    else close_transaction env w.db (body (env.db_now w.tick) (advance w))
