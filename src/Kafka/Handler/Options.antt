-- ===== src/Kafka/Handler/Options.antt =====
-- internal/kafka/handler.go: the constructor of the delivery handler and its options. The clients and
-- the policy that the options bring are parameters, and so are those that the constructor starts with.
use webhook_service.Prelude.{ℕ, none, some, List, [], ◌∷◌, GoString, lit, is_empty, if◌then◌else◌}
use webhook_service.Prelude.Int.{ℤ, pos, leb_ℤ}
use webhook_service.Domain.Event.{Duration}
use webhook_service.Domain.Subscription.{RatePolicy}
use webhook_service.Kafka.Webhook.{Client}
use webhook_service.Kafka.Delivery.{DeliveryHandler, RateLimitDecision}

-- `HandlerConfig`.
pub record HandlerConfig : Type 0 where
  pub http_timeout : Duration
  pub max_idle_conns : ℤ
  pub max_idle_conns_per_host : ℤ
  pub idle_conn_timeout : Duration
  pub lease_duration : Duration
  pub instance_id : GoString

abbrev pub default_handler_config : HandlerConfig
default_handler_config = record {
  http_timeout = pos 10000000000;
  max_idle_conns = pos 1000;
  max_idle_conns_per_host = pos 100;
  idle_conn_timeout = pos 90000000000;
  lease_duration = pos 30000000000;
  instance_id = lit "worker-1";
}

-- `retry.Policy`, as far as the handler uses it: `delay` is `CalculateDelay`, at a moment of its jitter.
pub record RetryPolicy : Type 0 where
  pub delay : ℕ → ℤ → Duration
  pub max_attempts : ℤ

abbrev pub HandlerOption : Type 0
HandlerOption = DeliveryHandler → DeliveryHandler

abbrev pub with_http_client : Client → HandlerOption
with_http_client client h = record h { client = client }

unfoldable pub with_retry_policy : RetryPolicy → HandlerOption
with_retry_policy p h = record h { delay = p.delay; policy_max_attempts = p.max_attempts }

-- An empty name, or a lease that is not positive, leaves what is there.
unfoldable pub with_claim_identity : GoString → Duration → HandlerOption
with_claim_identity instance lease h = record h {
  instance_id = if is_empty instance then h.instance_id else instance;
  lease_duration = if leb_ℤ lease (pos 0) then h.lease_duration else lease;
}

unfoldable pub with_rate_limiter : (ℕ → GoString → RatePolicy → RateLimitDecision) → HandlerOption
with_rate_limiter limiter h = record h { rate_limiter = some limiter }

abbrev pub apply_options : List HandlerOption → DeliveryHandler → DeliveryHandler
apply_options [] h = h
apply_options (option ∷ options) h = apply_options options (option h)

-- `NewDeliveryHandler`; `client` is the client of the default configuration.
unfoldable pub new_delivery_handler : Client → RetryPolicy → List HandlerOption → DeliveryHandler
new_delivery_handler client policy options = apply_options options (record {
  client = client;
  rate_limiter = none;
  delay = policy.delay;
  policy_max_attempts = policy.max_attempts;
  instance_id = default_handler_config.instance_id;
  lease_duration = default_handler_config.lease_duration;
})
