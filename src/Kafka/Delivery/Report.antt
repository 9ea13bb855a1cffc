-- ===== src/Kafka/Delivery/Report.antt =====
-- internal/kafka/delivery.go: the delivery of a claimed row reports either one attempt or that it was
-- throttled.
use webhook_service.Prelude.{
  ◌≡◌, ◌≢◌, ◌⊎◌, inl, inr, refl, ap, ◌∙◌, [], ◌∷◌, GoString, arith, Option-cases,
}
use webhook_service.Prelude.Int.{pos, ◌+ℤ◌}
use webhook_service.Domain.Event.{Err, DeliveryAttempt}
use webhook_service.Domain.Subscription.{Subscription}
use webhook_service.Domain.Delivery.{Delivery}
use webhook_service.Repository.World.{World, Environment, ok, err}
use webhook_service.Repository.World.Inversion.{Result-cases}
use webhook_service.Kafka.Delivery.{
  throttled_outcome, SubDeliveryResult, DeliveryHandler, RateLimitDecision, ask_limiter,
  rate_limited_result, deliver_to_subscription, DeliveryResult, result_of, message_from_delivery,
  subscription_from_delivery, deliver_delivery,
}
use webhook_service.Kafka.Delivery.Attempt.{
  Verdict, Reports, attempt_delivery-Reports, deliver_to_subscription-refused,
  deliver_to_subscription-allowed,
}

-- The delivery was throttled: it stands on no attempt.
abbrev pub Held : DeliveryResult → Type 0
Held r = (r.outcome ≡ throttled_outcome) × (r.attempts ≡ [])

-- The delivery stands on one attempt, of this row and its generation, with the next number.
abbrev pub Sent : DeliveryHandler → Delivery → DeliveryResult → Type 0
Sent h d r =
    (a : DeliveryAttempt) × (r.attempts ≡ a ∷ [])
    × (a.delivery_id ≡ d.id)
    × (a.subscription_id ≡ d.subscription_id)
    × (a.generation ≡ d.generation)
    × (a.attempt_number ≡ d.attempts +ℤ pos 1)
    × Verdict h (message_from_delivery d) r.outcome a.status_code

pub ask_limiter-total :
    (h : DeliveryHandler) (sub : Subscription) (w : World) {e : Err}
    → (ask_limiter h sub w).0 ≢ err e
unfolding ask_limiter
ask_limiter-total h sub w bad = ground (arith, bad)

ask_limiter-same :
    (h : DeliveryHandler) (sub : Subscription) (w : World) → (ask_limiter h sub w).1.db ≡ w.db
unfolding ask_limiter
ask_limiter-same h sub w = ground arith

deliver_delivery-eq-ok :
    (env : Environment) (h : DeliveryHandler) (trace : GoString) (d : Delivery) (w : World)
    (s : SubDeliveryResult)
    → let sent =
        deliver_to_subscription env h trace
          (message_from_delivery d)
          (subscription_from_delivery d)
          w in
      sent.0 ≡ ok s
      → sent.1.db ≡ w.db
      → ((deliver_delivery env h trace d w).0 ≡ ok (result_of d s))
        × ((deliver_delivery env h trace d w).1.db ≡ w.db)
unfolding deliver_delivery
deliver_delivery-eq-ok env h trace d w s e f = ground arith

result_of-Held :
    (d : Delivery) (decision : RateLimitDecision)
    → Held (result_of d (rate_limited_result decision))
unfolding result_of rate_limited_result
result_of-Held d decision = (refl, refl)

result_of-Sent :
    (h : DeliveryHandler) (d : Delivery) (s : SubDeliveryResult)
    → Reports h (message_from_delivery d) s
    → Sent h d (result_of d s)
unfolding result_of message_from_delivery
result_of-Sent h d s (a, e, n, v) = rw e (_, refl, refl, refl, refl, n, v)

-- A delivery always reports, and touches no table. It is throttled, without an attempt, or it stands
-- on one attempt of this row and generation, with the next number. Then it is a success only for a
-- code of 2xx, a retry only where a further attempt is allowed and the failure was a network error or
-- has a retryable code, and a failure only where one of these does not hold.
pub deliver_delivery_lem :
    (env : Environment) (h : DeliveryHandler) (trace : GoString) (d : Delivery) (w : World)
    → (r : DeliveryResult) × ((deliver_delivery env h trace d w).0 ≡ ok r)
      × (Held r ⊎ Sent h d r)
      × ((deliver_delivery env h trace d w).1.db ≡ w.db)
deliver_delivery_lem env h trace d w =
    let event = message_from_delivery d in
    let sub = subscription_from_delivery d in
    let asked = ask_limiter h sub w in
    elim (Result-cases asked.0) [
      | inr (e, bad) ↦ absurd (ask_limiter-total h sub w bad)
      | inl (answer, good) ↦ elim (Option-cases answer) [
        | inr (decision, refused) ↦
            let (e, f) =
              deliver_to_subscription-refused env h trace event sub w decision
                (good ∙ ap ok refused) in
            let (e', f') = deliver_delivery-eq-ok env h trace d w _ e f in
            (_, e', inl (result_of-Held d decision), f')
        | inl allowed ↦
            let step =
              deliver_to_subscription-allowed env h trace event sub w (good ∙ ap ok allowed) in
            let (s, e, report, f) = attempt_delivery-Reports env h trace event sub asked.1 in
            let (e', f') =
              deliver_delivery-eq-ok env h trace d w s (ap (λ x. x.0) step ∙ e)
                (ap (λ x. x.1.db) step ∙ f ∙ ask_limiter-same h sub w) in
            (_, e', inr (result_of-Sent h d s report), f')
      ]
    ]
