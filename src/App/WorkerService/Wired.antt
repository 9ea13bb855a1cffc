-- ===== src/App/WorkerService/Wired.antt =====
-- internal/app/worker.go: what the parts of a worker with valid settings run with.
use webhook_service.Prelude.{sym, subst, ◌≡◌, refl, none, some, arith}
use webhook_service.Prelude.Int.{◌≤ℤ◌}
use webhook_service.Config.Worker.{WorkerConfig, validate_worker_config}
use webhook_service.Config.Valid.{validate_worker_config_iff}
use webhook_service.Retry.Poller.{new_poller}
use webhook_service.Retention.{new_cleaner}
use webhook_service.Kafka.Handler.Options.{
  with_retry_policy, with_claim_identity, with_rate_limiter, new_delivery_handler,
}
use webhook_service.App.Readiness.{Limiter, init_rate_limiter}
use webhook_service.App.Resources.{Handles, Started, running, refused, release}
use webhook_service.App.Outside.{Outside}
use webhook_service.App.WorkerService.{
  start_worker_service, connect_db, WorkerService, Wiring, wire, build_delivery_handler,
  poller_config_of, cleaner_config_of,
}

-- The parts run with the settings, and no default takes the place of one; the handler and the poller
-- claim under one name and for one lease.
pub record Wired (out : Outside) (c : WorkerConfig) (limiter : Limiter) (w : Wiring) : Type 0 where
  pub instances :
      (w.handler.instance_id ≡ c.instance_id)
      × (w.poller_config.instance_id ≡ c.instance_id)
      × (w.consumer_config.instance_id ≡ c.instance_id)
  pub leases :
      (w.handler.lease_duration ≡ c.retry_lease_duration)
      × (w.poller_config.lease_duration ≡ c.retry_lease_duration)
  pub polls :
      (w.poller_config.poll_interval ≡ c.retry_poll_interval)
      × (w.poller_config.batch_size ≡ c.retry_batch_size)
      × (w.poller_config.max_concurrent_batches ≡ c.retry_max_concurrent_batches)
  pub cleanups :
      (w.cleaner_config.attempt_body_retention ≡ c.attempt_body_retention)
      × (w.cleaner_config.event_retention ≡ c.event_retention)
      × (w.cleaner_config.interval ≡ c.retention_cleanup_interval)
      × (w.cleaner_config.batch_size ≡ c.retention_batch_size)
  pub consumes :
      (w.consumer_config.brokers ≡ c.kafka_brokers)
      × (w.consumer_config.topic ≡ c.kafka_topic)
      × (w.consumer_config.group_id ≡ c.kafka_consumer_group)
  pub connections :
      (w.pool_config.max_conns ≡ c.db_max_conns)
      × (w.pool_config.min_conns ≤ℤ w.pool_config.max_conns)
  pub limits : w.handler.rate_limiter ≡ some (out.limiter limiter)

wire-Wired :
    (out : Outside) (c : WorkerConfig) (limiter : Limiter)
    → validate_worker_config c ≡ none
    → Wired out c limiter (wire out c limiter)
unfolding wire build_delivery_handler poller_config_of cleaner_config_of new_poller new_cleaner
    with_retry_policy with_claim_identity with_rate_limiter new_delivery_handler
wire-Wired out c limiter valid =
    let v = (validate_worker_config_iff c).0 valid in
    record {
      instances = ground (arith, v.instance_name);
      leases = ground (arith, v.lease);
      polls = ground (arith, v.interval, v.batch, v.batches);
      cleanups = ground (arith, v.bodies, v.events_after_bodies, v.cleanup, v.cleanup_batch);
      consumes = (refl, refl, refl);
      connections = ground (arith, v.connections);
      limits = refl;
    }

abbrev Wires : Outside → WorkerConfig → Limiter → Started WorkerService × Handles → Type 0
Wires out c limiter (refused e, h) = Unit {0}
Wires out c limiter (running s, h) = s.wiring ≡ wire out c limiter

start_worker_service-Wires :
    (out : Outside) (c : WorkerConfig) (h : Handles)
    → Wires out c (init_rate_limiter out.at_start c.redis_url) (start_worker_service out c h)
unfolding start_worker_service connect_db release
start_worker_service-Wires out c h = ground arith

Wires-running :
    (out : Outside) (c : WorkerConfig) (limiter : Limiter) (r : Started WorkerService × Handles)
    {s : WorkerService}
    → Wires out c limiter r
    → r.0 ≡ running s
    → s.wiring ≡ wire out c limiter
Wires-running out c limiter (refused e, h) w bad = absurd (cc (bad))
Wires-running out c limiter (running s, h) w e = ground (arith, w, e)

-- A worker that has started with valid settings runs with them, no default in the place of one: the
-- handler, the poller and the consumer have the name of the instance, claims by the handler and by the
-- poller hold for the same lease, the poller, the cleaner and the consumer have their settings, the
-- pool never wants more connections than it may have, and the handler asks the limiter that the Redis
-- URL chooses.
pub start_worker_service-Wired :
    (out : Outside) (c : WorkerConfig) (h : Handles) {s : WorkerService}
    → validate_worker_config c ≡ none
    → (start_worker_service out c h).0 ≡ running s
    → Wired out c (init_rate_limiter out.at_start c.redis_url) s.wiring
start_worker_service-Wired out c h valid e =
    let limiter = init_rate_limiter out.at_start c.redis_url in
    subst (Wired out c limiter)
      (sym (Wires-running out c limiter _ (start_worker_service-Wires out c h) e))
      (wire-Wired out c limiter valid)
