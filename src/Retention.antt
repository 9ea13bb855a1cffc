-- ===== src/Retention.antt =====
-- internal/retention/cleaner.go: the settings of the cleaner and one cleaning cycle.
pub mod Stop
use webhook_service.Prelude.{ℕ, zero, suc, ◌*◌, [], ◌∷◌, ◌++◌, if◌then◌else◌}
use webhook_service.Prelude.Int.{ℤ, pos, ◌-ℤ◌, leb_ℤ}
use webhook_service.Domain.Event.{Time, Duration}
use webhook_service.Repository.World.{
  World, Environment, Observation, attempt_bodies_redacted, terminal_events_deleted, cycle_failed,
  cycle_completed, Result, ok, err, Action, ◌>>=◌, ◌>>◌, advance,
}
use webhook_service.Repository.Retention.{redact_attempt_bodies, delete_terminal_events}

pub record RetentionConfig : Type 0 where
  pub attempt_body_retention : Duration
  pub event_retention : Duration
  pub interval : Duration
  pub batch_size : ℤ

abbrev pub hours : ℕ → Duration
hours n = pos (n * 3600000000000)

abbrev pub default_config : RetentionConfig
default_config = record {
  attempt_body_retention = hours 168;
  event_retention = hours 720;
  interval = hours 1;
  batch_size = pos 1000;
}

abbrev positive_or : ℤ → ℤ → ℤ
positive_or fallback x = if leb_ℤ x (pos 0) then fallback else x

-- The configuration that `NewCleaner` keeps.
unfoldable pub new_cleaner : RetentionConfig → RetentionConfig
new_cleaner c = record {
  attempt_body_retention =
      positive_or default_config.attempt_body_retention c.attempt_body_retention;
  event_retention = positive_or default_config.event_retention c.event_retention;
  interval = positive_or default_config.interval c.interval;
  batch_size = positive_or default_config.batch_size c.batch_size;
}

abbrev pub note : Observation → Action (Unit {0})
note o w = (ok tt, record w { observed = w.observed ++ (o ∷ []) })

unfoldable pub run_once : Environment → RetentionConfig → Time → Action (Unit {0})
run_once env c now = do
  redacted ← redact_attempt_bodies env (now -ℤ c.attempt_body_retention) c.batch_size
  note (attempt_bodies_redacted redacted)
  deleted ← delete_terminal_events env (now -ℤ c.event_retention) c.batch_size
  note (terminal_events_deleted deleted)

-- What the observer is told at the end of a cycle; the clock is read once more for the duration and
-- once for the instant.
abbrev close_cycle : Environment → Time → Result (Unit {0}) × World → World
close_cycle env started (ok _, w) = record w {
  observed =
      w.observed ++ (cycle_completed (env.now w.tick -ℤ started) (env.now (suc w.tick)) ∷ []);
  tick = suc (suc w.tick);
}
close_cycle env started (err e, w) = record w { observed = w.observed ++ (cycle_failed ∷ []) }

unfoldable pub run_and_observe : Environment → RetentionConfig → World → World
unfolding run_once
run_and_observe env c w =
    close_cycle env (env.now w.tick) (run_once env c (env.now w.tick) (advance w))

-- The loop of `Start`: a cycle at once, and one for each tick until the stop.
unfoldable pub run_cycles : Environment → RetentionConfig → ℕ → World → World
unfolding run_and_observe
run_cycles env c zero w = run_and_observe env c w
run_cycles env c (suc ticks) w = run_cycles env c ticks (run_and_observe env c w)
