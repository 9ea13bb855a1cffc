-- ===== src/App/WorkerService/Lifecycle.antt =====
-- internal/app/worker.go: what the worker holds, from its start to the end of
-- its shutdown.
use webhook_service.Prelude.{
  ◌≤◌, GoString, ◌<◌, ℕ, suc, ◌≡◌, refl, List, [], ◌∷◌, arith, none, some, Option, ◌++◌,
  if◌then◌else◌,
}
use webhook_service.Config.Worker.{WorkerConfig}
use webhook_service.App.Readiness.{Limiter, client_of, init_rate_limiter}
use webhook_service.App.Resources.{
  listener, redis_client, context, Resource, Handles, Started, running, refused, release, Below,
  without-fresh,
}
use webhook_service.App.Outside.{Outside}
use webhook_service.App.WorkerService.{
  start_connected, Wiring, WorkerService, start_worker_service, shutdown_worker, stop_task,
  stop_tasks, stop_consumer, connect_db,
}

abbrev redis_held : Option ℕ → List (ℕ × Resource)
redis_held none = []
redis_held (some n) = (n, redis_client) ∷ []

-- What a started worker holds.
abbrev pub parts : WorkerService → List (ℕ × Resource)
parts s =
    (s.cleaner, Resource.cleaner)
    ∷ (s.poller, Resource.poller)
    ∷ (s.consumer, Resource.consumer)
    ∷ (s.metrics, listener)
    ∷ (redis_held s.redis ++ ((s.pool, Resource.pool) ∷ (s.cancel, context) ∷ []))

abbrev LaterAny : ℕ → Option ℕ → Type 0
LaterAny n none = Unit
LaterAny n (some m) = n ≤ m

-- Every number of the service was given from `n` on.
abbrev Later : ℕ → WorkerService → Type 0
Later n s =
    (n ≤ s.cancel)
    × (n ≤ s.pool)
    × LaterAny n s.redis
    × (n ≤ s.metrics)
    × (n ≤ s.consumer)
    × (n ≤ s.poller)
    × (n ≤ s.cleaner)

abbrev unless_begun : Outside → ℕ → Resource → Handles → List (ℕ × Resource)
unless_begun out n r h = if out.begun n h then [] else (n, r) ∷ []

-- The tasks that go on after `Shutdown` has returned: the poller and the cleaner, each where its
-- goroutine had not begun when `Shutdown` called its `Stop`.
abbrev pub still_running : Outside → WorkerService → Handles → List (ℕ × Resource)
still_running out s h =
    let h1 = stop_consumer s h in
    unless_begun out s.cleaner Resource.cleaner (stop_task out s.poller h1)
    ++ unless_begun out s.poller Resource.poller h1

-- The handles after a start, by its outcome, and after the shutdown of what it started.
abbrev pub Accounted : Outside → Handles → Started WorkerService × Handles → Type 0
Accounted out h (refused e, h1) = h1.held ≡ h.held
Accounted out h (running s, h1) =
    (h1.held ≡ parts s ++ h.held)
    × ((shutdown_worker out s h1).1.held ≡ still_running out s h1 ++ h.held)
    × Later h.next s

module _ (out : Outside) (addr : GoString) (wiring : Wiring) (next : ℕ)
    (held : List (ℕ × Resource)) where
  abbrev service : ℕ → ℕ → Option ℕ → ℕ → ℕ → ℕ → ℕ → WorkerService
  service ctx p r m k q cl = record {
    cancel = ctx;
    pool = p;
    redis = r;
    metrics = m;
    consumer = k;
    poller = q;
    cleaner = cl;
    addr = addr;
    wiring = wiring;
  }

  shutdown_local :
      (ctx p m k q cl : ℕ)
      → Below ctx held
      → ctx < p
      → p < m
      → m < k
      → k < q
      → q < cl
      → let s = service ctx p none m k q cl in
        let h : Handles = record { next = next; held = parts s ++ held } in
        (shutdown_worker out s h).1.held ≡ still_running out s h ++ held
  unfolding shutdown_worker stop_tasks stop_task release
  shutdown_local ctx p m k q cl b l1 l2 l3 l4 l5 = ground (
    arith,
    without-fresh ctx ctx held b,
    without-fresh ctx p held b,
    without-fresh ctx m held b,
    without-fresh ctx k held b,
    without-fresh ctx q held b,
    without-fresh ctx cl held b,
  )

  shutdown_distributed :
      (ctx p r m k q cl : ℕ)
      → Below ctx held
      → ctx < p
      → p < r
      → r < m
      → m < k
      → k < q
      → q < cl
      → let s = service ctx p (some r) m k q cl in
        let h : Handles = record { next = next; held = parts s ++ held } in
        (shutdown_worker out s h).1.held ≡ still_running out s h ++ held
  unfolding shutdown_worker stop_tasks stop_task release
  shutdown_distributed ctx p r m k q cl b l1 l2 l3 l4 l5 l6 = ground (
    arith,
    without-fresh ctx ctx held b,
    without-fresh ctx p held b,
    without-fresh ctx r held b,
    without-fresh ctx m held b,
    without-fresh ctx k held b,
    without-fresh ctx q held b,
    without-fresh ctx cl held b,
  )

module _ (out : Outside) (c : WorkerConfig) (limiter : Limiter) (h : Handles)
    (b : Below h.next h.held) where
  abbrev connected : Handles
  connected = record {
    next = suc (suc h.next);
    held = (suc h.next, Resource.pool) ∷ (h.next, context) ∷ h.held;
  }

  start_connected-Accounted :
      (client address : Option GoString)
      → Accounted out h (start_connected out c h.next (suc h.next) limiter client address connected)
  unfolding release
  start_connected-Accounted none none =
      ground
        (arith, without-fresh h.next h.next h.held b, without-fresh h.next (suc h.next) h.held b)
  start_connected-Accounted (some url) none = ground (
    arith,
    without-fresh h.next h.next h.held b,
    without-fresh h.next (suc h.next) h.held b,
    without-fresh h.next (suc (suc h.next)) h.held b,
  )
  start_connected-Accounted none (some address) = (
    refl,
    shutdown_local out _ _ _ h.held _ _ _ _ _ _ b (omega arith) (omega arith) (omega arith)
        (omega arith) (omega arith),
    omega arith,
  )
  start_connected-Accounted (some url) (some address) = (
    refl,
    shutdown_distributed out _ _ _ h.held _ _ _ _ _ _ _ b (omega arith) (omega arith) (omega arith)
        (omega arith) (omega arith) (omega arith),
    omega arith,
  )

-- Where the handles that are open have earlier numbers: a start of the worker that is refused, at its
-- database or at the address of its metrics, leaves open what was open, and nothing else. One that
-- succeeds has its context, pool, Redis client if there is one, metrics, consumer, poller and cleaner
-- open besides, under numbers given since. Its shutdown leaves open what was open before, and besides
-- it the poller and the cleaner, each exactly where its goroutine had not begun when its `Stop` was
-- called: that `Stop` does not wait.
pub start_worker_service-Accounted :
    (out : Outside) (c : WorkerConfig) (h : Handles)
    → Below h.next h.held
    → Accounted out h (start_worker_service out c h)
unfolding start_worker_service connect_db release
start_worker_service-Accounted out c h b =
    let limiter = init_rate_limiter out.at_start c.redis_url in
    ground (
      arith,
      without-fresh h.next h.next h.held b,
      without-fresh h.next (suc h.next) h.held b,
      start_connected-Accounted out c limiter h b (client_of limiter) (out.listen c.metrics_addr),
    )
