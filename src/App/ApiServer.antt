-- ===== src/App/ApiServer.antt =====
-- internal/app/api.go and cmd/dispatch/main.go: the start of the API service, its shutdown, and the run
-- of the command between them. A call that only logs is left out; a task that serves requests ends
-- with its listener.
pub mod Lifecycle
use webhook_service.Prelude.{
  ℕ, zero, suc, Bool, true, false, Option, none, some, List, [], ◌∷◌, ◌++◌, GoString, lit,
  if◌then◌else◌,
}
use webhook_service.Observability.{ReadinessCheck, ReadyResponse, ready_response}
use webhook_service.Config.{System}
use webhook_service.Config.Api.{ApiConfig, parse_api_config, validate_api_config}
use webhook_service.Kafka.Producer.{ProducerConfig, default_producer_config}
use webhook_service.App.Readiness.{Dependencies, database_readiness_check, kafka_readiness_check}
use webhook_service.App.Resources.{
  pool, producer, listener, Handles, StartError, invalid_config, no_pool, no_database, no_listener,
  Started, running, refused, Boot, ◌>>=◌, ◌>>◌, pure, refuse, acquire, close, release, Resource,
}
use webhook_service.App.Outside.{Outside, loopback_address}

-- `APIServer`; `ready` and `checks` are those of the health handler behind its router.
pub record ApiServer : Type 0 where
  pub server : ℕ
  pub pool : ℕ
  pub producer : ℕ
  pub addr : GoString
  pub producer_config : ProducerConfig
  pub ready : Bool
  pub checks : Dependencies → List ReadinessCheck

abbrev ping_or_close : Outside → ℕ → Boot ℕ
ping_or_close out p = if out.at_start.pool_ping then pure p else (do close p; refuse no_database)

abbrev connect : Outside → GoString → Boot ℕ
connect out url =
    if out.new_pool url then (do p ← acquire Resource.pool; ping_or_close out p) else refuse no_pool

abbrev producer_config_of : ApiConfig → ProducerConfig
producer_config_of c = record default_producer_config {
  brokers = c.kafka_brokers;
  topic = c.kafka_topic;
}

abbrev listen_or_close : Outside → ApiConfig → ℕ → ℕ → Boot ApiServer
listen_or_close out c p w = elim (out.listen c.addr) [
  | none ↦ do close w; close p; refuse no_listener
  | some address ↦ do
    l ← acquire listener
    pure (record {
      server = l;
      pool = p;
      producer = w;
      addr = address;
      producer_config = producer_config_of c;
      ready = true;
      checks = λ deps.
          database_readiness_check deps
          ∷ kafka_readiness_check deps c.kafka_brokers c.kafka_topic
          ∷ [];
    })
]

unfoldable pub start_api_server : Outside → ApiConfig → Boot ApiServer
start_api_server out c = do
  p ← connect out c.database_url
  w ← acquire Resource.producer
  listen_or_close out c p w

-- `URL`.
unfoldable pub url : ApiServer → GoString
url s = lit "http://" ++ loopback_address s.addr

-- The error that a `Close` returns, if it does.
abbrev pub close_error : Outside → ℕ → Handles → List ℕ
close_error out n h = if out.close_fails n h then n ∷ [] else []

-- `Shutdown`: the resources whose closing returned an error, and what is held afterwards.
unfoldable pub shutdown_api : Outside → ApiServer → Handles → List ℕ × Handles
shutdown_api out s h =
    let h1 = release s.server h in
    let h2 = release s.producer h1 in
    (close_error out s.server h ++ close_error out s.producer h1, release s.pool h2)

abbrev run_started : Outside → Started ApiServer × Handles → Option StartError × Handles
run_started out (refused e, h) = (some e, h)
run_started out (running s, h) = (none, (shutdown_api out s (shutdown_api out s h).1).1)

-- `run`, where the signal comes: the deferred `Shutdown` follows the one of the signal, whose error is
-- only logged.
unfoldable pub run_api : Outside → ApiConfig → Handles → Option StartError × Handles
unfolding start_api_server shutdown_api
run_api out c h = run_started out (start_api_server out c h)

abbrev exit_code : Option StartError × Handles → ℕ
exit_code (none, h) = 0
exit_code (some e, h) = 1

-- `main`: the exit code of the process.
unfoldable pub api_main : Outside → System → Handles → ℕ
unfolding run_api parse_api_config validate_api_config
api_main out sys h =
    let c = parse_api_config sys in
    elim (validate_api_config c) [ some text ↦ 1 | none ↦ exit_code (run_api out c h) ]
