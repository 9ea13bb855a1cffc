-- ===== src/App/Readiness.antt =====
-- internal/app/dependency_checks.go and worker.go: the checks of the worker's readiness and its choice
-- of a rate limiter. What a dependency answers is a parameter: the ping of the pool, the dial of a
-- broker with the number of partitions of a topic, and whether a Redis URL parses and its client
-- answers.
use webhook_service.Prelude.{
  ℕ, zero, suc, ◌≡◌, ◌↔◌, subst, Bool, true, false, ◌&&◌, ◌||◌, Option, none, some, List, [], ◌∷◌,
  ◌++◌, GoString, lit, is_empty, not, arith, if◌then◌else◌,
}
use webhook_service.Observability.{
  ReadinessCheck, PingResult, unhealthy, panicked, ping_result, ready_response, ready_response_iff,
  status_code_of, all_up, any_panics,
}

-- What Redis and the brokers answer. `dial` gives the connection of an address, and that the number of
-- partitions of a topic; either may fail.
pub record Dependencies : Type 0 where
  pub pool_ping : Bool
  pub dial : GoString → Option (GoString → Option ℕ)
  pub redis_parses : GoString → Bool
  pub redis_ping : GoString → Bool

abbrev pub database_readiness_check : Dependencies → ReadinessCheck
database_readiness_check deps = record {
  name = lit "database";
  checker = some (ping_result deps.pool_ping);
}

abbrev has_partitions : Option ℕ → Bool
has_partitions none = false
has_partitions (some zero) = false
has_partitions (some (suc n)) = true

abbrev topic_answers : Option (GoString → Option ℕ) → GoString → Bool
topic_answers none topic = false
topic_answers (some read) topic = has_partitions (read topic)

-- `kafkaTopicChecker.Ping`, without an error; only the first broker is asked.
unfoldable pub kafka_ping : Dependencies → List GoString → GoString → Bool
kafka_ping deps [] topic = false
kafka_ping deps (broker ∷ brokers) topic =
    if is_empty broker
    then false
    else if is_empty topic
    then false
    else topic_answers (deps.dial broker) topic

abbrev pub kafka_readiness_check : Dependencies → List GoString → GoString → ReadinessCheck
kafka_readiness_check deps brokers topic = record {
  name = lit "kafka";
  checker = some (ping_result (kafka_ping deps brokers topic));
}

-- The limiters that `initRateLimiter` chooses from; the client is that of the limiter's URL.
pub data Limiter : Type 0 where
  local failing : Limiter
  distributed : GoString → Limiter

unfoldable pub init_rate_limiter : Dependencies → GoString → Limiter
init_rate_limiter deps url =
    if is_empty url then local else if deps.redis_parses url then distributed url else failing

-- The `*redis.Client` that comes with the limiter; `none` is a nil pointer.
abbrev pub client_of : Limiter → Option GoString
client_of (distributed url) = some url
client_of local = none
client_of failing = none

-- A value of the interface `redisPinger`: nil itself, or a `*redis.Client`, which may be a nil pointer.
pub data RedisPinger : Type 0 where
  no_pinger nil_client : RedisPinger
  client : GoString → RedisPinger

-- A pointer as the interface: a nil pointer does not become a nil interface.
abbrev pub as_pinger : Option GoString → RedisPinger
as_pinger none = nil_client
as_pinger (some url) = client url

-- The `Ping` of the check; the method of a nil pointer reads a field of the client and panics.
abbrev pub redis_ping_result : Dependencies → RedisPinger → PingResult
redis_ping_result deps no_pinger = unhealthy
redis_ping_result deps nil_client = panicked
redis_ping_result deps (client url) = ping_result (deps.redis_ping url)

-- `redisReadinessCheck`.
unfoldable pub redis_readiness_check : Dependencies → GoString → RedisPinger → Option ReadinessCheck
redis_readiness_check deps url pinger =
    if is_empty url
    then none
    else some (record { name = lit "redis"; checker = some (redis_ping_result deps pinger) })

abbrev append_check : List ReadinessCheck → Option ReadinessCheck → List ReadinessCheck
append_check checks none = checks
append_check checks (some c) = checks ++ (c ∷ [])

-- The checks that `StartWorkerService` gives the health handler.
unfoldable pub worker_checks :
    Dependencies → List GoString → GoString → GoString → List ReadinessCheck
unfolding init_rate_limiter redis_readiness_check kafka_ping
worker_checks deps brokers topic redis_url =
    append_check (database_readiness_check deps ∷ kafka_readiness_check deps brokers topic ∷ []) (
      redis_readiness_check deps redis_url
        (as_pinger (client_of (init_rate_limiter deps redis_url))))

-- Redis is not configured, or its URL parses and its client answers.
abbrev pub redis_usable : Dependencies → GoString → Bool
redis_usable deps url = is_empty url || (deps.redis_parses url && deps.redis_ping url)

-- Redis is configured with a URL that does not parse.
abbrev pub redis_broken : Dependencies → GoString → Bool
redis_broken deps url = not (is_empty url) && not (deps.redis_parses url)

all_up-worker_checks :
    (deps : Dependencies) (brokers : List GoString) (topic redis_url : GoString)
    → all_up (worker_checks deps brokers topic redis_url)
      ≡ (deps.pool_ping && kafka_ping deps brokers topic && redis_usable deps redis_url)
unfolding worker_checks init_rate_limiter redis_readiness_check
all_up-worker_checks deps brokers topic redis_url = ground arith

any_panics-worker_checks :
    (deps : Dependencies) (brokers : List GoString) (topic redis_url : GoString)
    → any_panics (worker_checks deps brokers topic redis_url) ≡ redis_broken deps redis_url
unfolding worker_checks init_rate_limiter redis_readiness_check
any_panics-worker_checks deps brokers topic redis_url = ground arith

-- The worker answers 200 exactly where it has started, its database answers, its first broker knows
-- partitions of the topic, and Redis is not configured or usable. It does not answer at all, since its
-- handler panics, exactly where Redis is configured with a URL that does not parse.
pub worker_checks_iff :
    (started : Bool) (deps : Dependencies) (brokers : List GoString) (topic redis_url : GoString)
    → let response = ready_response started (worker_checks deps brokers topic redis_url) in
      ((status_code_of response ≡ some 200) ↔ (
        (started
          && (deps.pool_ping && kafka_ping deps brokers topic && redis_usable deps redis_url))
        ≡ true))
      × ((response ≡ none) ↔ (redis_broken deps redis_url ≡ true))
worker_checks_iff started deps brokers topic redis_url =
    let checks = worker_checks deps brokers topic redis_url in
    let (answered, dropped) = ready_response_iff started checks in
    (
      subst
          (λ b.
            (status_code_of (ready_response started checks) ≡ some 200) ↔ ((started && b) ≡ true))
          (all_up-worker_checks deps brokers topic redis_url) answered,
      subst (λ b. (ready_response started checks ≡ none) ↔ (b ≡ true))
          (any_panics-worker_checks deps brokers topic redis_url) dropped,
    )
