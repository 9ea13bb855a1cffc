-- ===== src/Config/Worker.antt =====
-- internal/config/config.go: `WorkerConfig`. Of a complaint's text the number that it prints is left
-- out.
use webhook_service.Prelude.{Option, List, [], ◌∷◌, GoString, lit, is_empty}
use webhook_service.Prelude.Int.{ℤ, pos, leb_ℤ, ltb_ℤ}
use webhook_service.Domain.Event.{Duration}
use webhook_service.Config.{
  System, env_or_default, split_env_or_default, env_int_or_default, env_duration_or_default, int32,
  seconds, no_first, first_complaint,
}
use webhook_service.Config.Api.{default_database_url}

pub record WorkerConfig : Type 0 where
  pub database_url : GoString
  pub db_max_conns : ℤ
  pub redis_url : GoString
  pub kafka_brokers : List GoString
  pub kafka_topic : GoString
  pub kafka_consumer_group : GoString
  pub instance_id : GoString
  pub metrics_addr : GoString
  pub retry_poll_interval : Duration
  pub retry_batch_size : ℤ
  pub retry_max_concurrent_batches : ℤ
  pub retry_lease_duration : Duration
  pub attempt_body_retention : Duration
  pub event_retention : Duration
  pub retention_cleanup_interval : Duration
  pub retention_batch_size : ℤ
  pub log_level : GoString

unfoldable pub parse_worker_config : System → WorkerConfig
unfolding env_or_default split_env_or_default env_int_or_default env_duration_or_default int32
parse_worker_config sys = record {
  database_url = env_or_default sys (lit "DATABASE_URL") default_database_url;
  db_max_conns = int32 (env_int_or_default sys (lit "DB_MAX_CONNS") (pos 30));
  redis_url = sys.getenv (lit "REDIS_URL");
  kafka_brokers = split_env_or_default sys (lit "KAFKA_BROKERS") (lit "localhost:9092" ∷ []);
  kafka_topic = env_or_default sys (lit "KAFKA_TOPIC") (lit "events.pending");
  kafka_consumer_group = env_or_default sys (lit "KAFKA_CONSUMER_GROUP") (lit "dispatch-workers");
  instance_id = env_or_default sys (lit "INSTANCE_ID") (lit "worker-1");
  metrics_addr = env_or_default sys (lit "METRICS_ADDR") (lit ":8081");
  retry_poll_interval = env_duration_or_default sys (lit "RETRY_POLL_INTERVAL") (seconds 5);
  retry_batch_size = env_int_or_default sys (lit "RETRY_BATCH_SIZE") (pos 100);
  retry_max_concurrent_batches =
      env_int_or_default sys (lit "RETRY_MAX_CONCURRENT_BATCHES") (pos 1);
  retry_lease_duration = env_duration_or_default sys (lit "RETRY_LEASE_DURATION") (seconds 30);
  attempt_body_retention =
      env_duration_or_default sys (lit "ATTEMPT_BODY_RETENTION") (seconds 604800);
  event_retention = env_duration_or_default sys (lit "EVENT_RETENTION") (seconds 2592000);
  retention_cleanup_interval =
      env_duration_or_default sys (lit "RETENTION_CLEANUP_INTERVAL") (seconds 3600);
  retention_batch_size = env_int_or_default sys (lit "RETENTION_BATCH_SIZE") (pos 1000);
  log_level = env_or_default sys (lit "LOG_LEVEL") (lit "debug");
}

unfoldable pub validate_worker_config : WorkerConfig → Option GoString
validate_worker_config c = first_complaint (
    (is_empty c.database_url, lit "DATABASE_URL must not be empty")
    ∷ (leb_ℤ c.db_max_conns (pos 0), lit "DB_MAX_CONNS must be positive")
    ∷ (no_first c.kafka_brokers, lit "KAFKA_BROKERS must not be empty")
    ∷ (is_empty c.kafka_topic, lit "KAFKA_TOPIC must not be empty")
    ∷ (is_empty c.kafka_consumer_group, lit "KAFKA_CONSUMER_GROUP must not be empty")
    ∷ (leb_ℤ c.retry_poll_interval (pos 0), lit "RETRY_POLL_INTERVAL must be positive")
    ∷ (leb_ℤ c.retry_batch_size (pos 0), lit "RETRY_BATCH_SIZE must be positive")
    ∷ (
      leb_ℤ c.retry_max_concurrent_batches (pos 0),
      lit "RETRY_MAX_CONCURRENT_BATCHES must be positive",
    )
    ∷ (is_empty c.instance_id, lit "INSTANCE_ID must not be empty")
    ∷ (leb_ℤ c.retry_lease_duration (pos 0), lit "RETRY_LEASE_DURATION must be positive")
    ∷ (leb_ℤ c.attempt_body_retention (pos 0), lit "ATTEMPT_BODY_RETENTION must be positive")
    ∷ (leb_ℤ c.event_retention (pos 0), lit "EVENT_RETENTION must be positive")
    ∷ (
      ltb_ℤ c.event_retention c.attempt_body_retention,
      lit "EVENT_RETENTION must be greater than or equal to ATTEMPT_BODY_RETENTION",
    )
    ∷ (
      leb_ℤ c.retention_cleanup_interval (pos 0),
      lit "RETENTION_CLEANUP_INTERVAL must be positive",
    )
    ∷ (leb_ℤ c.retention_batch_size (pos 0), lit "RETENTION_BATCH_SIZE must be positive")
    ∷ [])
