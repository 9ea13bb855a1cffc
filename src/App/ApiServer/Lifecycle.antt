-- ===== src/App/ApiServer/Lifecycle.antt =====
-- internal/app/api.go and cmd/dispatch/main.go: what the API service holds, from its start to the end
-- of its run.
use webhook_service.Prelude.{◌&&◌, is_some, if◌then◌else◌, suc, ◌≡◌, ◌∷◌, arith}
use webhook_service.Config.{System}
use webhook_service.Config.Api.{ApiConfig, parse_api_config}
use webhook_service.Config.Valid.{validate-parse_api_config}
use webhook_service.App.Resources.{
  listener, Resource, Handles, Started, running, refused, release, Below, without-fresh,
}
use webhook_service.App.Outside.{Outside}
use webhook_service.App.ApiServer.{ApiServer, start_api_server, shutdown_api, run_api, api_main}

-- The handles after a start, by its outcome, and after the shutdown of what it started.
abbrev pub Accounted : Outside → Handles → Started ApiServer × Handles → Type 0
Accounted out h (refused e, h1) = h1.held ≡ h.held
Accounted out h (running s, h1) =
    (h1.held
      ≡ (s.server, listener) ∷ (s.producer, Resource.producer) ∷ (s.pool, Resource.pool) ∷ h.held)
    × ((shutdown_api out s h1).1.held ≡ h.held)

-- Where the handles that are open have earlier numbers: a start of the API service that is refused, at
-- its database or at its address, leaves open what was open, and nothing else. One that succeeds has
-- its server, producer and pool open besides, and its shutdown leaves open what was open before.
pub start_api_server-Accounted :
    (out : Outside) (c : ApiConfig) (h : Handles)
    → Below h.next h.held
    → Accounted out h (start_api_server out c h)
unfolding start_api_server shutdown_api release
start_api_server-Accounted out c h b = ground (
  arith,
  without-fresh h.next h.next h.held b,
  without-fresh h.next (suc h.next) h.held b,
  without-fresh h.next (suc (suc h.next)) h.held b,
)

-- Where the handles that are open have earlier numbers, the run of the API service, up to its signal and
-- both calls of `Shutdown`, leaves open what was open, whether its start was refused or not.
pub run_api-held :
    (out : Outside) (c : ApiConfig) (h : Handles)
    → Below h.next h.held
    → (run_api out c h).1.held ≡ h.held
unfolding run_api start_api_server shutdown_api release
run_api-held out c h b = ground (
  arith,
  without-fresh h.next h.next h.held b,
  without-fresh h.next (suc h.next) h.held b,
  without-fresh h.next (suc (suc h.next)) h.held b,
)

-- The command ends with 0 exactly where a pool could be made, the database answered and the address
-- could be listened at: its settings are always valid.
pub api_main_lem :
    (out : Outside) (sys : System) (h : Handles)
    → let c = parse_api_config sys in
      api_main out sys h ≡ (
        if out.new_pool c.database_url && out.at_start.pool_ping && is_some (out.listen c.addr)
        then 0
        else 1)
unfolding api_main run_api start_api_server
api_main_lem out sys h = ground (arith, validate-parse_api_config sys)
