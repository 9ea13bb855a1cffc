-- ===== src/Tests/App.antt =====
-- Runs of the theorems on the start of the services, on a machine where all is well.
use webhook_service.Prelude.{
  ◌==◌, arith, ◌≡◌, ◌↔◌, refl, true, false, some, none, [], ◌∷◌, lit, if◌then◌else◌,
}
use webhook_service.Prelude.Int.{pos}
use webhook_service.Config.{System}
use webhook_service.Config.Api.{ApiConfig}
use webhook_service.Config.Worker.{WorkerConfig, parse_worker_config, validate_worker_config}
use webhook_service.Config.Valid.{Workable}
use webhook_service.Kafka.Handler.Options.{RetryPolicy}
use webhook_service.App.Readiness.{init_rate_limiter}
use webhook_service.App.Resources.{Resource, Handles}
use webhook_service.App.Outside.{Outside}
use webhook_service.App.ApiServer.{ApiServer, start_api_server, api_main}
use webhook_service.App.ApiServer.Lifecycle.{start_api_server-Accounted, api_main_lem}
use webhook_service.App.WorkerService.{
  WorkerService, start_worker_service, run_worker, worker_main, connect_db, wire,
}
use webhook_service.App.WorkerService.Lifecycle.{start_worker_service-Accounted}
use webhook_service.App.WorkerService.Wired.{Wired, start_worker_service-Wired}
use webhook_service.App.WorkerService.Exit.{startable, worker_main_iff}
use webhook_service.Tests.Data.{client}

abbrev policy : RetryPolicy
policy = record { delay = λ tick attempt. pos 1000000000; max_attempts = pos 5 }

abbrev outside : Outside
outside = record {
  parses_url = λ url. true;
  new_pool = λ url. true;
  listen = λ addr. some (lit "[::]:8081");
  close_fails = λ n h. false;
  begun = λ n h. true;
  at_start = record {
    pool_ping = true;
    dial = λ broker. some (λ topic. some 3);
    redis_parses = λ url. true;
    redis_ping = λ url. true;
  };
  client = client;
  policy = policy;
  limiter = λ limiter tick id rate. record { allowed = true; retry_after = pos 0 };
}

-- The address is in use.
abbrev occupied : Outside
occupied = record outside { listen = λ addr. none }

-- A handle that belongs to another part of the process.
abbrev handles : Handles
handles = record { next = 8; held = (3, Resource.pool) ∷ [] }

-- An environment that sets the URL of Redis and nothing else.
abbrev system : System
system = record {
  getenv = λ key. elim key [ b ∷ _ ↦ if b == b'R' then lit "redis" else [] | [] ↦ [] ];
  atoi = λ text. none;
  parse_duration = λ text. none;
}

abbrev settings : WorkerConfig
settings = record {
  database_url = lit "d";
  db_max_conns = pos 30;
  redis_url = lit "r";
  kafka_brokers = lit "b" ∷ [];
  kafka_topic = lit "t";
  kafka_consumer_group = lit "g";
  instance_id = lit "w";
  metrics_addr = lit ":0";
  retry_poll_interval = pos 5;
  retry_batch_size = pos 100;
  retry_max_concurrent_batches = pos 2;
  retry_lease_duration = pos 30;
  attempt_body_retention = pos 7;
  event_retention = pos 30;
  retention_cleanup_interval = pos 1;
  retention_batch_size = pos 1000;
  log_level = lit "info";
}

abbrev api_settings : ApiConfig
api_settings = record {
  addr = lit ":0";
  database_url = lit "d";
  kafka_brokers = lit "b" ∷ [];
  kafka_topic = lit "t";
  log_level = lit "info";
}

start_worker_service-Accounted_example :
    webhook_service.App.WorkerService.Lifecycle.Accounted outside handles
      (start_worker_service outside settings handles)
start_worker_service-Accounted_example =
    start_worker_service-Accounted outside settings handles (omega arith, tt)

start_api_server-Accounted_example :
    webhook_service.App.ApiServer.Lifecycle.Accounted occupied handles
      (start_api_server occupied api_settings handles)
start_api_server-Accounted_example =
    start_api_server-Accounted occupied api_settings handles (omega arith, tt)

abbrev service : WorkerService
service = record {
  cancel = 8;
  pool = 9;
  redis = some 10;
  metrics = 11;
  consumer = 12;
  poller = 13;
  cleaner = 14;
  addr = lit "[::]:8081";
  wiring = wire outside settings (init_rate_limiter outside.at_start settings.redis_url);
}

start_worker_service-Wired_example :
    Wired outside settings (init_rate_limiter outside.at_start settings.redis_url) service.wiring
unfolding start_worker_service connect_db init_rate_limiter validate_worker_config
start_worker_service-Wired_example = start_worker_service-Wired outside settings handles refl refl

worker_main_iff_example : (worker_main outside system handles ≡ 0) ↔ (
    Workable (parse_worker_config system) × (startable outside (parse_worker_config system) ≡ true))
worker_main_iff_example = worker_main_iff outside system handles (λ n g. refl)
