-- ===== src/App/Observers/Counts.antt =====
-- internal/kafka/handler.go with internal/app/worker.go: how the worker's counters grow by the outcome of
-- each delivery.
use webhook_service.Prelude.{
  ℕ, ◌+◌, ◌≡◌, ap, ◌∙◌, subst, List, [], ◌∷◌, ◌++◌, length, GoString, arith,
}
use webhook_service.Domain.Event.{Duration}
use webhook_service.Domain.Delivery.{Delivery}
use webhook_service.Repository.World.{
  Observation, attempt_started, attempt_duration, throttled, rate_limited,
}
use webhook_service.Kafka.Delivery.{success, throttled_outcome, retry, failure, DeliveryOutcome}
use webhook_service.Kafka.Handler.{Processed, file}
use webhook_service.Kafka.Handler.Applied.{status_of}
use webhook_service.Observability.Metrics.{Metrics}
use webhook_service.App.Observers.{record_observation, record_all}
use webhook_service.App.Observers.Told.{Noted, final, sent, record_all-append}

-- From one state of the metrics to another, so many deliveries were delivered, are to be attempted
-- again, and failed: every attempt was timed and led to one outcome, and every throttled delivery was
-- one refusal by a limiter.
pub record Counts (m m' : Metrics) (good waiting bad : ℕ) : Type 0 where
  pub delivered : m'.events_delivered ≡ m.events_delivered + good
  pub failed : m'.events_failed ≡ m.events_failed + bad
  pub again :
      m'.events_retrying + m'.events_throttled ≡ m.events_retrying + m.events_throttled + waiting
  pub attempts :
      m'.delivery_attempts + (m.events_delivered + m.events_retrying + m.events_failed)
      ≡ m.delivery_attempts + (m'.events_delivered + m'.events_retrying + m'.events_failed)
  pub timed :
      length m'.delivery_duration + m.delivery_attempts
      ≡ length m.delivery_duration + m'.delivery_attempts
  pub refusals :
      length m'.rate_limiter_rejections + m.events_throttled
      ≡ length m.rate_limiter_rejections + m'.events_throttled

abbrev pub one_good : DeliveryOutcome → ℕ
one_good success = 1
one_good _ = 0

abbrev pub one_waiting : DeliveryOutcome → ℕ
one_waiting retry = 1
one_waiting throttled_outcome = 1
one_waiting _ = 0

abbrev pub one_bad : DeliveryOutcome → ℕ
one_bad failure = 1
one_bad _ = 0

record_all-snoc :
    (os : List Observation) (o : Observation) (m : Metrics)
    → record_all (os ++ (o ∷ [])) m ≡ record_observation o (record_all os m)
unfolding record_all
record_all-snoc os o m = record_all-append os (o ∷ []) m

-- What is recorded of an attempt, and of its outcome.
abbrev attempted : Duration → Observation → Metrics → Metrics
attempted t o m =
    record_observation o
      (record_observation (attempt_duration t) (record_observation attempt_started m))

record_all-attempted :
    (t : Duration) (o : Observation) (os : List Observation) (m : Metrics)
    → record_all (sent t os ++ (o ∷ [])) m ≡ attempted t o (record_all os m)
record_all-attempted t o os m =
    record_all-snoc _ o m
    ∙ ap (record_observation o) (
        record_all-snoc (os ++ (attempt_started ∷ [])) (attempt_duration t) m
        ∙ ap (record_observation (attempt_duration t)) (record_all-snoc os attempt_started m))

Counts-refused :
    (id : GoString) (m : Metrics)
    → Counts m (record_observation (rate_limited id) (record_observation throttled m)) 0 1 0
unfolding record_observation
Counts-refused id m = record {
  delivered = omega arith;
  failed = omega arith;
  again = omega arith;
  attempts = omega arith;
  timed = omega arith;
  refusals = omega arith;
}

Counts-delivered :
    (t : Duration) (m : Metrics) → Counts m (attempted t Observation.delivered m) 1 0 0
unfolding record_observation
Counts-delivered t m = ground arith

Counts-retrying : (t : Duration) (m : Metrics) → Counts m (attempted t Observation.retrying m) 0 1 0
unfolding record_observation
Counts-retrying t m = ground arith

Counts-failed : (t : Duration) (m : Metrics) → Counts m (attempted t Observation.failed m) 0 0 1
unfolding record_observation
Counts-failed t m = ground arith

pub Counts-final :
    (id : GoString) (o : DeliveryOutcome) (os os' : List Observation) (m : Metrics)
    → Noted id o os os'
    → Counts (record_all os m) (record_all (final o os') m) (one_good o) (one_waiting o) (one_bad o)
Counts-final id success os os' m (t, e) =
    rw (e, record_all-attempted t Observation.delivered os m) (Counts-delivered t (record_all os m))
Counts-final id retry os os' m (t, e) =
    rw (e, record_all-attempted t Observation.retrying os m) (Counts-retrying t (record_all os m))
Counts-final id failure os os' m (t, e) =
    rw (e, record_all-attempted t Observation.failed os m) (Counts-failed t (record_all os m))
Counts-final id throttled_outcome os os' m e =
    rw
      (
        e,
        record_all-snoc (os ++ (throttled ∷ [])) (rate_limited id) m,
        record_all-snoc os throttled m,
      )
      (Counts-refused id (record_all os m))

pub Counts-same : (m : Metrics) → Counts m m 0 0 0
Counts-same m = ground arith

pub Counts-then :
    {m m1 m2 : Metrics} {a b c a' b' c' : ℕ}
    → Counts m m1 a b c
    → Counts m1 m2 a' b' c'
    → Counts m m2 (a + a') (b + b') (c + c')
Counts-then x y = record {
  delivered = omega (arith, x.delivered, y.delivered);
  failed = omega (arith, x.failed, y.failed);
  again = omega (arith, x.again, y.again);
  attempts = omega (arith, x.attempts, y.attempts);
  timed = omega (arith, x.timed, y.timed);
  refusals = omega (arith, x.refusals, y.refusals);
}

-- The counts of the three lists.
abbrev pub Tallied : Metrics → Metrics → Processed → Type 0
Tallied m m' p = Counts m m' (length p.delivered) (length p.retrying) (length p.failed)

Tallied-equal :
    {m m' : Metrics} {a b c a' b' c' : ℕ}
    → a ≡ a'
    → b ≡ b'
    → c ≡ c'
    → Counts m m' a b c
    → Counts m m' a' b' c'
Tallied-equal {m} {m'} p q r x = subst (λ (T : Type 0). T) (λ i. Counts m m' (p i) (q i) (r i)) x

pub Tallied-file :
    (o : DeliveryOutcome) (d : Delivery) (p : Processed) {m m' : Metrics}
    → d.status ≡ status_of o
    → Counts m m'
        (one_good o + length p.delivered)
        (one_waiting o + length p.retrying)
        (one_bad o + length p.failed)
    → Tallied m m' (file d p)
unfolding file
Tallied-file o d p e c = Tallied-equal (ground (arith, e)) (ground (arith, e)) (ground (arith, e)) c
