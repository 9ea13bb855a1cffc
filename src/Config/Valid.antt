-- ===== src/Config/Valid.antt =====
-- internal/config/config.go: what `Validate` accepts, and what the parsed settings always satisfy.
use webhook_service.Prelude.{
  ◌≡◌, ◌≢◌, ◌↔◌, refl, false, none, List, [], ◌∷◌, GoString, lit, arith, is_empty,
}
use webhook_service.Prelude.Int.{pos, ◌<ℤ◌, ◌≤ℤ◌}
use webhook_service.Config.{System, env_or_default, split_env_or_default, no_first}
use webhook_service.Config.Api.{parse_api_config, validate_api_config, default_database_url}
use webhook_service.Config.Worker.{WorkerConfig, validate_worker_config}

-- What a worker needs of its settings.
pub record Workable (c : WorkerConfig) : Type 0 where
  pub database : c.database_url ≢ []
  pub connections : pos 0 <ℤ c.db_max_conns
  pub brokers : no_first c.kafka_brokers ≡ false
  pub topic : c.kafka_topic ≢ []
  pub group : c.kafka_consumer_group ≢ []
  pub interval : pos 0 <ℤ c.retry_poll_interval
  pub batch : pos 0 <ℤ c.retry_batch_size
  pub batches : pos 0 <ℤ c.retry_max_concurrent_batches
  pub instance_name : c.instance_id ≢ []
  pub lease : pos 0 <ℤ c.retry_lease_duration
  pub bodies : pos 0 <ℤ c.attempt_body_retention
  pub events_after_bodies : c.attempt_body_retention ≤ℤ c.event_retention
  pub cleanup : pos 0 <ℤ c.retention_cleanup_interval
  pub cleanup_batch : pos 0 <ℤ c.retention_batch_size

-- The validation accepts exactly the settings that a worker can work with: the texts and the first
-- broker are not empty, the numbers and the durations are positive, and events are kept at least as
-- long as the bodies of attempts.
pub validate_worker_config_iff : (c : WorkerConfig) → (validate_worker_config c ≡ none) ↔ Workable c
unfolding validate_worker_config
validate_worker_config_iff c = ground arith

env_or_default-filled :
    (sys : System) (key fallback : GoString)
    → is_empty fallback ≡ false
    → is_empty (env_or_default sys key fallback) ≡ false
unfolding env_or_default
env_or_default-filled sys key fallback h = ground arith

split_env_or_default-filled :
    (sys : System) (key : GoString) (fallback : List GoString)
    → no_first fallback ≡ false
    → no_first (split_env_or_default sys key fallback) ≡ false
unfolding split_env_or_default
split_env_or_default-filled sys key fallback h = ground arith

-- Whatever the environment holds, the parsed settings of the API service are valid: every empty
-- value, and a list of brokers that starts with an empty one, is replaced by the default.
pub validate-parse_api_config : (sys : System) → validate_api_config (parse_api_config sys) ≡ none
unfolding validate_api_config parse_api_config
validate-parse_api_config sys = ground (
  arith,
  env_or_default-filled sys (lit "ADDR") (lit ":8080") refl,
  env_or_default-filled sys (lit "DATABASE_URL") default_database_url refl,
  split_env_or_default-filled sys (lit "KAFKA_BROKERS") (lit "localhost:9092" ∷ []) refl,
  env_or_default-filled sys (lit "KAFKA_TOPIC") (lit "events.pending") refl,
)
