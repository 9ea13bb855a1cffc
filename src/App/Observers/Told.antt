-- ===== src/App/Observers/Told.antt =====
-- internal/kafka/delivery.go and handler.go: what one delivery tells the observers, by its outcome.
use webhook_service.Prelude.{
  ◌≢◌, ◌≡◌, refl, sym, ap, ◌∙◌, subst, some, List, [], ◌∷◌, ◌++◌, GoString, arith, Option-cases,
  inl, inr,
}
use webhook_service.Domain.Event.{Duration}
use webhook_service.Domain.Subscription.{Subscription}
use webhook_service.Domain.Delivery.{Delivery}
use webhook_service.Repository.World.{
  World, Environment, Observation, delivered, failed, retrying, throttled, attempt_started,
  attempt_duration, rate_limited, ok, time_now, advance, pure,
}
use webhook_service.Repository.World.Inversion.{>>=-eq-ok, Result-cases}
use webhook_service.Kafka.Delivery.Attempt.{deliver_to_subscription-allowed}
use webhook_service.Kafka.Delivery.Report.{ask_limiter-total}
use webhook_service.Kafka.Message.{EventMessage}
use webhook_service.Kafka.Webhook.{Client, deliver_webhook, build_request}
use webhook_service.Prelude.Int.{◌-ℤ◌}
use webhook_service.Kafka.Delivery.{
  failed_result, failed_outcome, success_result, DeliveryHandler, RateLimitDecision,
  rate_limited_result, ask_limiter, attempt_delivery, deliver_to_subscription, deliver_delivery,
  result_of, success, throttled_outcome, retry, failure, DeliveryResult, DeliveryOutcome,
  SubDeliveryResult, message_from_delivery, subscription_from_delivery,
}
use webhook_service.Kafka.Handler.{apply_delivery_result, next_attempt_time}
use webhook_service.Observability.Metrics.{Metrics}
use webhook_service.App.Observers.{record_observation, record_all}

pub record_all-append :
    (os ps : List Observation) (m : Metrics)
    → record_all (os ++ ps) m ≡ record_all ps (record_all os m)
unfolding record_all
record_all-append [] ps m = refl
record_all-append (o ∷ os) ps m = record_all-append os ps (record_observation o m)

-- The handling of a request tells the observers nothing.
deliver_webhook-observed :
    (env : Environment) (c : Client) (trace : GoString) (sub : Subscription) (event : EventMessage)
    (w : World)
    → (deliver_webhook env c trace sub event w).1.observed ≡ w.observed
unfolding deliver_webhook build_request time_now
deliver_webhook-observed env c trace sub event w = ground arith

abbrev pub sent : Duration → List Observation → List Observation
sent t os = (os ++ (attempt_started ∷ [])) ++ (attempt_duration t ∷ [])

-- What an outcome has told: a throttled delivery was refused, and any other was attempted.
abbrev pub Noted : GoString → DeliveryOutcome → List Observation → List Observation → Type 0
Noted id throttled_outcome os os' = os' ≡ (os ++ (throttled ∷ [])) ++ (rate_limited id ∷ [])
Noted id success os os' = (t : Duration) × (os' ≡ sent t os)
Noted id retry os os' = (t : Duration) × (os' ≡ sent t os)
Noted id failure os os' = (t : Duration) × (os' ≡ sent t os)

abbrev at_call : World → World
at_call w = record (advance w) { observed = w.observed ++ (attempt_started ∷ []) }

attempt_delivery-sent :
    (env : Environment) (h : DeliveryHandler) (trace : GoString) (event : EventMessage)
    (sub : Subscription) (w : World) {s : SubDeliveryResult}
    → (attempt_delivery env h trace event sub w).0 ≡ ok s
    → (attempt_delivery env h trace event sub w).1.observed
      ≡ sent
          (env.now (deliver_webhook env h.client trace sub event (at_call w)).1.tick
            -ℤ env.now w.tick)
          w.observed
unfolding attempt_delivery time_now
attempt_delivery-sent env h trace event sub w good =
    ground (arith, good, deliver_webhook-observed env h.client trace sub event (at_call w))

attempt_delivery-outcome :
    (env : Environment) (h : DeliveryHandler) (trace : GoString) (event : EventMessage)
    (sub : Subscription) (w : World) {s : SubDeliveryResult}
    → (attempt_delivery env h trace event sub w).0 ≡ ok s
    → s.outcome ≢ throttled_outcome
unfolding attempt_delivery time_now failed_result failed_outcome success_result
attempt_delivery-outcome env h trace event sub w good bad = ground (arith, good, bad)

Noted-sent :
    (id : GoString) (o : DeliveryOutcome) (t : Duration) (os : List Observation)
    → o ≢ throttled_outcome
    → Noted id o os (sent t os)
Noted-sent id success t os n = (t, refl)
Noted-sent id retry t os n = (t, refl)
Noted-sent id failure t os n = (t, refl)
Noted-sent id throttled_outcome t os n = absurd (n refl)

ask_limiter-observed :
    (h : DeliveryHandler) (sub : Subscription) (w : World)
    → (ask_limiter h sub w).1.observed ≡ w.observed
unfolding ask_limiter
ask_limiter-observed h sub w = ground arith

deliver_to_subscription-told :
    (env : Environment) (h : DeliveryHandler) (trace : GoString) (event : EventMessage)
    (sub : Subscription) (w : World) {s : SubDeliveryResult} (decision : RateLimitDecision)
    → (ask_limiter h sub w).0 ≡ ok (some decision)
    → (deliver_to_subscription env h trace event sub w).0 ≡ ok s
    → (s.outcome ≡ throttled_outcome)
      × ((deliver_to_subscription env h trace event sub w).1.observed
          ≡ (w.observed ++ (throttled ∷ [])) ++ (rate_limited sub.id ∷ []))
unfolding deliver_to_subscription ask_limiter rate_limited_result
deliver_to_subscription-told env h trace event sub w decision asked good =
    ground (arith, asked, good)

Noted-throttled :
    (id : GoString) (o : DeliveryOutcome) (os os' : List Observation)
    → o ≡ throttled_outcome
    → os' ≡ (os ++ (throttled ∷ [])) ++ (rate_limited id ∷ [])
    → Noted id o os os'
Noted-throttled id o os os' e told = subst (λ x. Noted id x os os') (sym e) told

deliver_to_subscription-Noted :
    (env : Environment) (h : DeliveryHandler) (trace : GoString) (event : EventMessage)
    (sub : Subscription) (w : World) {s : SubDeliveryResult}
    → (deliver_to_subscription env h trace event sub w).0 ≡ ok s
    → Noted sub.id s.outcome w.observed (deliver_to_subscription env h trace event sub w).1.observed
deliver_to_subscription-Noted env h trace event sub w {s} good =
    elim (Result-cases (ask_limiter h sub w).0) [
      | inr (e, bad) ↦ absurd (ask_limiter-total h sub w bad)
      | inl (answer, asked) ↦ elim (Option-cases answer) [
        | inr (decision, refused) ↦
            let (o, told) =
              deliver_to_subscription-told env h trace event sub w decision (asked ∙ ap ok refused)
                good in
            Noted-throttled sub.id s.outcome _ _ o told
        | inl allowed ↦
            let step =
              deliver_to_subscription-allowed env h trace event sub w (asked ∙ ap ok allowed) in
            let w' = (ask_limiter h sub w).1 in
            let good' = sym (ap (λ x. x.0) step) ∙ good in
            rw
              (
                step,
                attempt_delivery-sent env h trace event sub w' good',
                ask_limiter-observed h sub w,
              )
              (Noted-sent sub.id s.outcome _ w.observed
                (attempt_delivery-outcome env h trace event sub w' good'))
      ]
    ]

result_of-outcome : (d : Delivery) (s : SubDeliveryResult) → (result_of d s).outcome ≡ s.outcome
unfolding result_of
result_of-outcome d s = ground arith

pub deliver_delivery-Noted :
    (env : Environment) (h : DeliveryHandler) (trace : GoString) (d : Delivery) (w : World)
    {r : DeliveryResult}
    → (deliver_delivery env h trace d w).0 ≡ ok r
    → Noted d.subscription_id r.outcome w.observed (deliver_delivery env h trace d w).1.observed
unfolding deliver_delivery subscription_from_delivery
deliver_delivery-Noted env h trace d w {r} good =
    let (s, e, step) =
      >>=-eq-ok
        (deliver_to_subscription env h trace (message_from_delivery d)
          (subscription_from_delivery d))
        (λ s. pure (result_of d s)) w good in
    let noted = deliver_to_subscription-Noted env h trace _ _ w e in
    let q : r ≡ result_of d s = cc (good, ap (λ x. x.0) step) in
    let p : r.outcome ≡ s.outcome =
      ap (λ (x : DeliveryResult). x.outcome) q ∙ result_of-outcome d s in
    let os =
      (deliver_to_subscription env h trace (message_from_delivery d) (subscription_from_delivery d)
        w).1.observed in
    rw step (subst (λ o. Noted d.subscription_id o w.observed os) (sym p) noted)

-- What applying an outcome tells: of a throttled delivery, nothing more.
abbrev pub final : DeliveryOutcome → List Observation → List Observation
final success os = os ++ (delivered ∷ [])
final retry os = os ++ (retrying ∷ [])
final failure os = os ++ (failed ∷ [])
final throttled_outcome os = os

pub apply_delivery_result-final :
    (env : Environment) (h : DeliveryHandler) (d : Delivery) (r : DeliveryResult) (w : World)
    → (apply_delivery_result env h d r w).1.observed ≡ final r.outcome w.observed
unfolding apply_delivery_result next_attempt_time time_now
apply_delivery_result-final env h d r w = ground arith
