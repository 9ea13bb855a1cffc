-- ===== src/App/WorkerService/Exit.antt =====
-- cmd/worker/main.go: how the worker's process ends.
use webhook_service.Prelude.{
  refl, GoString, subst, ℕ, ◌≡◌, ◌↔◌, Bool, true, false, ◌&&◌, none, some, is_some, arith, Option,
}
use webhook_service.Config.{System}
use webhook_service.Config.Worker.{WorkerConfig, parse_worker_config, validate_worker_config}
use webhook_service.Config.Valid.{Workable, validate_worker_config_iff}
use webhook_service.App.Resources.{Handles, Started, running, refused}
use webhook_service.App.Outside.{Outside}
use webhook_service.App.WorkerService.{
  WorkerService, worker_main, run_worker, start_worker_service, shutdown_worker, connect_db,
  run_started, exit_code, exit_code_of, RunResult,
}

-- What the start needs of the database and of the address of the metrics.
abbrev pub startable : Outside → WorkerConfig → Bool
startable out c =
    out.parses_url c.database_url
    && out.new_pool c.database_url
    && out.at_start.pool_ping
    && is_some (out.listen c.metrics_addr)

abbrev has_started : Started WorkerService × Handles → Bool
has_started (running s, h) = true
has_started (refused e, h) = false

has_started-start :
    (out : Outside) (c : WorkerConfig) (h : Handles)
    → has_started (start_worker_service out c h) ≡ startable out c
unfolding start_worker_service connect_db
has_started-start out c h = ground arith

exit_code-started :
    (out : Outside) (r : Started WorkerService × Handles)
    → ((n : ℕ) (h : Handles) → out.close_fails n h ≡ false)
    → (exit_code (run_started out r).0 ≡ 0) ↔ (has_started r ≡ true)
unfolding shutdown_worker
exit_code-started out (running s, h) clean = grind (arith, clean)
exit_code-started out (refused e, h) clean = ground arith

exit_code-run :
    (out : Outside) (c : WorkerConfig) (h : Handles)
    → ((n : ℕ) (h : Handles) → out.close_fails n h ≡ false)
    → (exit_code (run_worker out c h).0 ≡ 0) ↔ (startable out c ≡ true)
unfolding run_worker
exit_code-run out c h clean =
    subst (λ b. (exit_code (run_started out (start_worker_service out c h)).0 ≡ 0) ↔ (b ≡ true))
      (has_started-start out c h) (exit_code-started out (start_worker_service out c h) clean)

exit_code_of_iff :
    (v : Option GoString) (r : RunResult)
    → (exit_code_of v r ≡ 0) ↔ ((v ≡ none) × (exit_code r ≡ 0))
exit_code_of_iff none r = ((λ z. (refl, z)), λ p. p.1)
exit_code_of_iff (some text) r = ((λ z. absurd (omega (arith, z))), λ p. absurd (cc (p.0)))

-- Where nothing fails to close, the worker's process ends with 0 exactly where its settings are valid,
-- its database takes the URL, has a pool and answers, and the address of its metrics could be listened
-- at. Redis has no part in it.
pub worker_main_iff :
    (out : Outside) (sys : System) (h : Handles)
    → ((n : ℕ) (g : Handles) → out.close_fails n g ≡ false)
    → (worker_main out sys h ≡ 0)
      ↔ (Workable (parse_worker_config sys) × (startable out (parse_worker_config sys) ≡ true))
unfolding worker_main
worker_main_iff out sys h clean =
    let c = parse_worker_config sys in
    let (valid, workable) = validate_worker_config_iff c in
    let (good, back) = exit_code-run out c h clean in
    let (apart, together) = exit_code_of_iff (validate_worker_config c) (run_worker out c h).0 in
    (λ z. (valid (apart z).0, good (apart z).1), λ p. together (workable p.0, back p.1))
