-- ===== src/Lib.antt =====
-- Dispatch, a webhook delivery service. Its API publishes events to Kafka and manages subscriptions;
-- its worker consumes the events, stores one delivery row for each matching subscription in
-- PostgreSQL, claims rows under a lease, posts them to their destinations and writes the outcome under
-- the fence of that lease. This library models the program's logic and proves what makes it correct.
--
-- The parts, and the code that each is about:
--   Prelude            Boolean tests, lists, texts as lists of bytes, and integers
--   Domain             internal/domain: Event (event.go, errors.go), Subscription (subscription.go),
--                      Delivery and Projection (delivery.go); their children hold the theorems
--   Repository         internal/repository/postgres: World is the store and its answers, Reads,
--                      Initialize, Claim, Outcome and Replay are the operations of event.go,
--                      Subscriptions is subscription.go, Retention is retention.go; Invariant is what
--                      all of them keep of the tables
--   Kafka              internal/kafka: Message and Consumer (consumer.go), Signature (signature.go),
--                      Webhook (webhook.go), Delivery (delivery.go), Handler (handler.go), Producer
--                      (producer.go)
--   Resilience         internal/resilience: RedisRateLimiter (redis_ratelimiter.go) and
--                      RateLimiterManager (ratelimiter.go, interfaces.go)
--   Retry              internal/retry: Poller (poller.go), with its steps and those of its batches, and
--                      Policy (policy.go)
--   Retention          internal/retention/cleaner.go, with the stop of the cleaner in Stop
--   Observability      internal/observability: health.go, Metrics and Names (metrics.go), and Middleware
--                      (logging.go, middleware.go)
--   App                internal/app: Readiness (dependency_checks.go, and of worker.go the checks and
--                      the choice of a rate limiter), Resources and Outside (what the services open and
--                      ask), ApiServer (api.go, cmd/dispatch), WorkerService (worker.go, cmd/worker) and
--                      Observers (what the worker's metrics make of the reports)
--   System             the operations of any number of instances on one database, in any order
--   Api                internal/api: Response and Handler (handler.go), Changes (routes.go), Edge (the
--                      way of an event from routes.go to the broker)
--   Config             internal/config/config.go
--   Tests              runs of the theorems at concrete inputs
--
-- How they interact: `Api.Handler` hands messages to a publisher and calls the repositories;
-- `Kafka.Consumer` collects messages and calls `process_batch` of `Kafka.Handler`, which initialises
-- the deliveries, claims them, has `Kafka.Delivery` attempt each one by `Kafka.Webhook`, and persists
-- each outcome. `Retry.Poller` claims by `Repository.Claim` and processes by the same handler;
-- `Retention` cleans by `Repository.Retention`. `App.WorkerService` starts all of these with one
-- handler, and `App.Observers` records what they report. `System` has the operations of all of these as the
-- steps of one relation.
--
-- How the model is made:
--   * A Go method that returns a value and an error is an `Action`: a function of the world to a result
--     and a new world. The world holds the four tables of migrations/001_initial.up.sql, the sequence
--     of attempt ids, what the delivery observer was told, and a `tick`.
--   * The outside is a parameter and answers by the tick: the clocks, whether a statement fails, which
--     rows other transactions lock, the order of texts, the HTTP client, JSON, the digest, the rate
--     limiter, and the draws behind the delay of the retry policy.
--   * A statement is a function on the tables that a constraint may refuse. A transaction that fails,
--     also at its commit, leaves the tables as they were; a commit whose answer is lost is not
--     modelled. `RETURNING` gives the rows in the order of the candidates.
--   * Instants and durations are integers of nanoseconds and Go's `int` is an integer without
--     wrap-around, since the columns bound the counters; `int32` of the settings wraps. An interval is
--     cut to microseconds as the code does.
--   * Loops over slices are structural recursion, so that no fuel is needed. The consumer's loops run over
--     the fetches of their turns, and also on fuel under a clock and a signal: a batch needs a round for
--     each nanosecond of its timeout at most, the loop a turn for each tick up to the signal.
--   * Floating-point numbers are a record of operations, with the laws of IEEE 754 that are used.
--   * What runs at the same time is a step relation: `System.Step` on the tables, each step with its own
--     environment, `Retry.Poller.Steps` on the poller's loop, its goroutines and its channel, and
--     `Retention.Stop` on the cleaner's goroutine and the calls that stop it.
--   * Redis and golang.org/x/time/rate are records of operations with their documented laws, which the
--     limiters take as a parameter. That Redis drops a key is an input of a call.
--   * A service's start is a `Boot`: a function of the numbered handles that are open to its result and
--     the handles then. Closing a handle twice closes no other, as the `Close`, `Stop` and `Shutdown`
--     that the services call are documented or written to allow. A `Stop` of the poller or of the cleaner
--     that comes before its goroutine has begun leaves that goroutine to run.
--   * Errors are constructors of `Err`; their texts and log lines are left out.
--
-- Not modelled: the buckets of the metrics, loggers and the liveness answer (internal/observability), the
-- clock (internal/clock, a wrapper of time.Now), and the tools under cmd and scripts.
pub mod Prelude
pub mod Domain
pub mod Repository
pub mod Kafka
pub mod Resilience
pub mod Observability
pub mod App
pub mod Retention
pub mod Retry
pub mod System
pub mod Api
pub mod Config
pub mod Tests
