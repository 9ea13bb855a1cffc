-- ===== src/App/WorkerService.antt =====
-- internal/app/worker.go and cmd/worker/main.go: the start of the worker, its shutdown, and the run of
-- the command between them. A call that only logs is left out, and so are the timeouts of the Redis
-- client and the server of the metrics behind its listener.
pub mod Lifecycle
pub mod Wired
pub mod Exit
use webhook_service.Prelude.{
  ℕ, Bool, true, false, Option, none, some, List, [], ◌∷◌, ◌++◌, GoString, if◌then◌else◌,
}
use webhook_service.Prelude.Int.{ℤ, div_trunc}
use webhook_service.Observability.{ReadinessCheck}
use webhook_service.Config.{System}
use webhook_service.Config.Worker.{WorkerConfig, parse_worker_config, validate_worker_config}
use webhook_service.Kafka.Delivery.{DeliveryHandler}
use webhook_service.Kafka.Handler.Options.{
  with_retry_policy, with_claim_identity, with_rate_limiter, new_delivery_handler,
}
use webhook_service.Kafka.Consumer.{ConsumerConfig, default_consumer_config}
use webhook_service.Retry.Poller.{PollerConfig, default_poller_config, new_poller}
use webhook_service.Retention.{RetentionConfig, new_cleaner}
use webhook_service.App.Readiness.{
  Dependencies, Limiter, init_rate_limiter, client_of, worker_checks,
}
use webhook_service.App.Resources.{
  Resource, pool, redis_client, listener, consumer, poller, cleaner, context, Handles, StartError,
  invalid_config, bad_database_url, no_pool, no_database, no_listener, Started, running, refused,
  Boot, ◌>>=◌, ◌>>◌, pure, refuse, acquire, close, close_any, release, release_any,
}
use webhook_service.App.Outside.{Outside, loopback_address}

-- `pgxpool.Config`, as far as `connectDB` sets it.
pub record PoolConfig : Type 0 where
  pub max_conns : ℤ
  pub min_conns : ℤ

-- What the parts of the worker run with. The consumer and the poller have one handler.
pub record Wiring : Type 0 where
  pub pool_config : PoolConfig
  pub handler : DeliveryHandler
  pub consumer_config : ConsumerConfig
  pub poller_config : PollerConfig
  pub cleaner_config : RetentionConfig
  pub ready : Bool
  pub checks : Dependencies → List ReadinessCheck

-- `WorkerService`.
pub record WorkerService : Type 0 where
  pub cancel : ℕ
  pub pool : ℕ
  pub redis : Option ℕ
  pub consumer : ℕ
  pub poller : ℕ
  pub cleaner : ℕ
  pub metrics : ℕ
  pub addr : GoString
  pub wiring : Wiring

abbrev pub pool_config_of : WorkerConfig → PoolConfig
pool_config_of c = record { max_conns = c.db_max_conns; min_conns = div_trunc c.db_max_conns 3 }

abbrev ping_or_close : Outside → ℕ → Boot ℕ
ping_or_close out p = if out.at_start.pool_ping then pure p else (do close p; refuse no_database)

abbrev new_pool_or_fail : Outside → GoString → Boot ℕ
new_pool_or_fail out url =
    if out.new_pool url then (do p ← acquire Resource.pool; ping_or_close out p) else refuse no_pool

-- `connectDB`.
unfoldable pub connect_db : Outside → WorkerConfig → Boot ℕ
connect_db out c =
    if out.parses_url c.database_url
    then new_pool_or_fail out c.database_url
    else refuse bad_database_url

-- `buildDeliveryHandler`; the observer is that of the metrics.
unfoldable pub build_delivery_handler : Outside → WorkerConfig → Limiter → DeliveryHandler
unfolding new_delivery_handler with_retry_policy with_claim_identity with_rate_limiter
build_delivery_handler out c limiter = new_delivery_handler out.client out.policy (
    with_retry_policy out.policy
    ∷ with_claim_identity c.instance_id c.retry_lease_duration
    ∷ with_rate_limiter (out.limiter limiter)
    ∷ [])

-- The configuration in `startConsumer`.
abbrev pub consumer_config_of : WorkerConfig → ConsumerConfig
consumer_config_of c = record default_consumer_config {
  brokers = c.kafka_brokers;
  topic = c.kafka_topic;
  group_id = c.kafka_consumer_group;
  instance_id = c.instance_id;
}

-- The configuration that the poller of `startRetryPoller` keeps.
unfoldable pub poller_config_of : WorkerConfig → PollerConfig
unfolding new_poller
poller_config_of c = new_poller (record default_poller_config {
  poll_interval = c.retry_poll_interval;
  batch_size = c.retry_batch_size;
  max_concurrent_batches = c.retry_max_concurrent_batches;
  instance_id = c.instance_id;
  lease_duration = c.retry_lease_duration;
})

-- The configuration that the cleaner of `startRetentionCleaner` keeps.
unfoldable pub cleaner_config_of : WorkerConfig → RetentionConfig
unfolding new_cleaner
cleaner_config_of c = new_cleaner (record {
  attempt_body_retention = c.attempt_body_retention;
  event_retention = c.event_retention;
  interval = c.retention_cleanup_interval;
  batch_size = c.retention_batch_size;
})

unfoldable pub wire : Outside → WorkerConfig → Limiter → Wiring
unfolding build_delivery_handler poller_config_of cleaner_config_of worker_checks
wire out c limiter = record {
  pool_config = pool_config_of c;
  handler = build_delivery_handler out c limiter;
  consumer_config = consumer_config_of c;
  poller_config = poller_config_of c;
  cleaner_config = cleaner_config_of c;
  ready = true;
  checks = λ deps. worker_checks deps c.kafka_brokers c.kafka_topic c.redis_url;
}

abbrev acquire_client : Option GoString → Boot (Option ℕ)
acquire_client none = pure none
acquire_client (some url) = do n ← acquire redis_client; pure (some n)

-- Where `connectDB` fails, the context is cancelled.
abbrev or_cancel : ℕ → Started ℕ × Handles → Started ℕ × Handles
or_cancel ctx (running p, h) = (running p, h)
or_cancel ctx (refused e, h) = (refused e, release ctx h)

-- `startMetricsServer` with the address of its listener, and what is closed where there is none.
abbrev start_metrics_server : ℕ → ℕ → Option ℕ → Option GoString → Boot (ℕ × GoString)
start_metrics_server ctx p r none = do close ctx; close_any r; close p; refuse no_listener
start_metrics_server ctx p r (some address) = do m ← acquire listener; pure (m, address)

-- `StartWorkerService`, from the connected pool on.
abbrev pub start_connected :
    Outside
    → WorkerConfig
    → ℕ
    → ℕ
    → Limiter
    → Option GoString
    → Option GoString
    → Boot WorkerService
start_connected out c ctx p limiter client address = do
  r ← acquire_client client
  server ← start_metrics_server ctx p r address
  k ← acquire Resource.consumer
  q ← acquire Resource.poller
  cl ← acquire Resource.cleaner
  pure (record {
    cancel = ctx;
    pool = p;
    redis = r;
    consumer = k;
    poller = q;
    cleaner = cl;
    metrics = server.0;
    addr = server.1;
    wiring = wire out c limiter;
  })

unfoldable pub start_worker_service : Outside → WorkerConfig → Boot WorkerService
unfolding connect_db wire init_rate_limiter
start_worker_service out c = do
  ctx ← acquire context
  p ← λ h. or_cancel ctx (connect_db out c h)
  let limiter = init_rate_limiter out.at_start c.redis_url
  start_connected out c ctx p limiter (client_of limiter) (out.listen c.metrics_addr)

-- `MetricsAddr`.
unfoldable pub metrics_addr : WorkerService → GoString
metrics_addr s = loopback_address s.addr

abbrev error_of : Outside → ℕ → Handles → List ℕ
error_of out n h = if out.close_fails n h then n ∷ [] else []

abbrev error_of_any : Outside → Option ℕ → Handles → List ℕ
error_of_any out none h = []
error_of_any out (some n) h = error_of out n h

-- `Stop` of the poller or of the cleaner: it waits for the end of the goroutine, unless that has not
-- begun; then it returns at once, and the goroutine is still to run.
unfoldable pub stop_task : Outside → ℕ → Handles → Handles
stop_task out n h = if out.begun n h then release n h else h

-- The consumer's `Stop` waits for its loop in every case.
abbrev pub stop_consumer : WorkerService → Handles → Handles
stop_consumer s h = release s.consumer (release s.cancel h)

-- What `Shutdown` has closed before the server of the metrics.
unfoldable pub stop_tasks : Outside → WorkerService → Handles → Handles
unfolding stop_task
stop_tasks out s h = stop_task out s.cleaner (stop_task out s.poller (stop_consumer s h))

-- `Shutdown`: the resources whose closing returned an error, and what is held afterwards.
unfoldable pub shutdown_worker : Outside → WorkerService → Handles → List ℕ × Handles
unfolding stop_tasks
shutdown_worker out s h =
    let h1 = stop_tasks out s h in
    let h2 = release s.metrics h1 in
    let h3 = release_any s.redis h2 in
    (error_of out s.metrics h1 ++ error_of_any out s.redis h2, release s.pool h3)

-- How the command ends: the error of the start, or those of the shutdown.
pub data RunResult : Type 0 where
  not_started : StartError → RunResult
  stopped : List ℕ → RunResult

abbrev pub run_started : Outside → Started WorkerService × Handles → RunResult × Handles
run_started out (refused e, h) = (not_started e, h)
run_started out (running s, h) =
    let first = shutdown_worker out s h in (stopped first.0, (shutdown_worker out s first.1).1)

-- `run`, where the signal comes: the deferred `Shutdown` follows the one whose error is returned.
unfoldable pub run_worker : Outside → WorkerConfig → Handles → RunResult × Handles
unfolding start_worker_service shutdown_worker
run_worker out c h = run_started out (start_worker_service out c h)

abbrev pub exit_code : RunResult → ℕ
exit_code (not_started e) = 1
exit_code (stopped []) = 0
exit_code (stopped (e ∷ es)) = 1

-- With a complaint about the settings nothing is run.
abbrev pub exit_code_of : Option GoString → RunResult → ℕ
exit_code_of none r = exit_code r
exit_code_of (some complaint) r = 1

-- `main`: the exit code of the process.
unfoldable pub worker_main : Outside → System → Handles → ℕ
unfolding run_worker parse_worker_config validate_worker_config
worker_main out sys h =
    let c = parse_worker_config sys in
    exit_code_of (validate_worker_config c) (run_worker out c h).0
