-- ===== src/Kafka/Delivery/Attempt.antt =====
-- internal/kafka/delivery.go: what the delivery of one row reports, from the limiter's answer to the
-- record of the attempt.
use webhook_service.Prelude.{
  suc, ◌++◌, ◌≡◌, ◌≢◌, ◌⊎◌, inl, inr, refl, sym, ◌∙◌, subst, true, Option, none, some, [], ◌∷◌,
  GoString, arith, is_some, Option-cases,
}
use webhook_service.Prelude.Int.{ℤ, pos, ◌+ℤ◌, ◌-ℤ◌, ◌<ℤ◌}
use webhook_service.Domain.Event.{Time, Err, DeliveryAttempt}
use webhook_service.Domain.Subscription.{Subscription}
use webhook_service.Repository.World.{
  World, Environment, ok, err, time_now, advance, attempt_started,
}
use webhook_service.Repository.World.Inversion.{Result-cases}
use webhook_service.Kafka.Message.{EventMessage}
use webhook_service.Kafka.Webhook.{
  Client, Reply, deliver_webhook, build_request, read_reply, is_success,
}
use webhook_service.Kafka.Delivery.{
  DeliveryOutcome, success, throttled_outcome, retry, failure, SubDeliveryResult, DeliveryHandler,
  RateLimitDecision, ask_limiter, rate_limited_result, attempt_of, failed_outcome, failed_result,
  success_result, attempt_delivery, deliver_to_subscription,
}
use webhook_service.Kafka.Delivery.Outcome.{attempts_allowed, RetryableCode, failed_outcome_iff}

-- A status code of 2xx.
abbrev pub SuccessCode : Option ℤ → Type 0
SuccessCode none = ⊥
SuccessCode (some code) = is_success code ≡ true

-- A further attempt is allowed, and the failure does not rule it out.
abbrev pub Retriable : DeliveryHandler → EventMessage → Option ℤ → Type 0
Retriable h event code = (event.attempt +ℤ pos 1 <ℤ attempts_allowed h event) × RetryableCode code

-- What an outcome of an attempt says of its status code.
abbrev pub Verdict : DeliveryHandler → EventMessage → DeliveryOutcome → Option ℤ → Type 0
Verdict h event success code = SuccessCode code
Verdict h event retry code = Retriable h event code
Verdict h event failure code = ¬ Retriable h event code
Verdict h event throttled_outcome code = ⊥

abbrev Answered : Reply → Type 0
Answered reply =
    (is_some reply.error ≡ true) ⊎ ((reply.error ≡ none) × SuccessCode reply.status_code)

deliver_webhook-total :
    (env : Environment) (c : Client) (trace : GoString) (sub : Subscription) (event : EventMessage)
    (w : World) {e : Err}
    → (deliver_webhook env c trace sub event w).0 ≢ err e
unfolding deliver_webhook build_request time_now
deliver_webhook-total env c trace sub event w bad = ground (arith, bad)

deliver_webhook-Answered :
    (env : Environment) (c : Client) (trace : GoString) (sub : Subscription) (event : EventMessage)
    (w : World) {reply : Reply}
    → (deliver_webhook env c trace sub event w).0 ≡ ok reply
    → Answered reply × ((deliver_webhook env c trace sub event w).1.db ≡ w.db)
unfolding deliver_webhook build_request time_now read_reply
deliver_webhook-Answered env c trace sub event w good = ground arith

failed_outcome-Verdict :
    (h : DeliveryHandler) (event : EventMessage) (code : Option ℤ)
    → Verdict h event (failed_outcome h event code) code
failed_outcome-Verdict h event code =
    let both = failed_outcome_iff h event code in
    elim both.1 [
      | inl e ↦ subst (λ o. Verdict h event o code) (sym e) (both.0.0 e)
      | inr e ↦ subst (λ o. Verdict h event o code) (sym e) (λ k. let r = both.0.1 k in cc (r, e))
    ]

-- The world that the webhook is called in, after the attempt has been announced and timed.
abbrev at_call : World → World
at_call w = record (advance w) { observed = w.observed ++ (attempt_started ∷ []) }

-- The record of an attempt that was called at `w` and answered at `w'`.
abbrev recorded : Environment → EventMessage → Reply → World → World → DeliveryAttempt
recorded env event reply w w' =
    attempt_of event reply (env.now w'.tick -ℤ env.now w.tick) (env.now (suc w'.tick))

attempt_delivery-failed :
    (env : Environment) (h : DeliveryHandler) (trace : GoString) (event : EventMessage)
    (sub : Subscription) (w : World) (reply : Reply) (text : GoString)
    → (deliver_webhook env h.client trace sub event (at_call w)).0 ≡ ok reply
    → reply.error ≡ some text
    → let w' = (deliver_webhook env h.client trace sub event (at_call w)).1 in
      ((attempt_delivery env h trace event sub w).0
        ≡ ok (failed_result h event reply.status_code (recorded env event reply w w') text))
      × ((attempt_delivery env h trace event sub w).1.db ≡ w'.db)
unfolding attempt_delivery time_now
attempt_delivery-failed env h trace event sub w reply text called failed = ground arith

attempt_delivery-succeeded :
    (env : Environment) (h : DeliveryHandler) (trace : GoString) (event : EventMessage)
    (sub : Subscription) (w : World) (reply : Reply)
    → (deliver_webhook env h.client trace sub event (at_call w)).0 ≡ ok reply
    → reply.error ≡ none
    → let w' = (deliver_webhook env h.client trace sub event (at_call w)).1 in
      ((attempt_delivery env h trace event sub w).0
        ≡ ok (success_result (env.now (suc (suc w'.tick))) (recorded env event reply w w')))
      × ((attempt_delivery env h trace event sub w).1.db ≡ w'.db)
unfolding attempt_delivery time_now
attempt_delivery-succeeded env h trace event sub w reply called fine = ground arith

-- A report of one attempt, by its number and its status code.
abbrev pub Reports : DeliveryHandler → EventMessage → SubDeliveryResult → Type 0
Reports h event s =
    (a : DeliveryAttempt) × (s.attempt ≡ some a)
    × (a.attempt_number ≡ event.attempt +ℤ pos 1)
    × Verdict h event s.outcome a.status_code

failed_result-Reports :
    (env : Environment) (h : DeliveryHandler) (event : EventMessage) (reply : Reply)
    (text : GoString) (w w' : World)
    → Reports h event (failed_result h event reply.status_code (recorded env event reply w w') text)
unfolding failed_result attempt_of
failed_result-Reports env h event reply text w w' =
    (recorded env event reply w w', refl, refl, failed_outcome-Verdict h event reply.status_code)

success_result-Reports :
    (env : Environment) (h : DeliveryHandler) (event : EventMessage) (reply : Reply) (now : Time)
    (w w' : World)
    → SuccessCode reply.status_code
    → Reports h event (success_result now (recorded env event reply w w'))
unfolding success_result attempt_of
success_result-Reports env h event reply now w w' good =
    (recorded env event reply w w', refl, refl, good)

code_of : (reply : Reply) → Answered reply → reply.error ≡ none → SuccessCode reply.status_code
code_of reply (inl failed) fine = absurd (cc (rw fine at failed))
code_of reply (inr (_, code)) fine = code

pub attempt_delivery-Reports :
    (env : Environment) (h : DeliveryHandler) (trace : GoString) (event : EventMessage)
    (sub : Subscription) (w : World)
    → (s : SubDeliveryResult) × ((attempt_delivery env h trace event sub w).0 ≡ ok s)
      × Reports h event s
      × ((attempt_delivery env h trace event sub w).1.db ≡ w.db)
attempt_delivery-Reports env h trace event sub w =
    let call = deliver_webhook env h.client trace sub event (at_call w) in
    elim (Result-cases call.0) [
      | inr (e, bad) ↦ absurd (deliver_webhook-total env h.client trace sub event (at_call w) bad)
      | inl (reply, called) ↦
          let (answered, same) =
            deliver_webhook-Answered env h.client trace sub event (at_call w) called in
          elim (Option-cases reply.error) [
            | inr (text, failed) ↦
                let (e, f) =
                  attempt_delivery-failed env h trace event sub w reply text called failed in
                (_, e, failed_result-Reports env h event reply text w call.1, f ∙ same)
            | inl fine ↦
                let (e, f) = attempt_delivery-succeeded env h trace event sub w reply called fine in
                let now = env.now (suc (suc call.1.tick)) in
                (
                  _,
                  e,
                  success_result-Reports env h event reply now w call.1
                      (code_of reply answered fine),
                  f ∙ same,
                )
          ]
    ]

pub deliver_to_subscription-refused :
    (env : Environment) (h : DeliveryHandler) (trace : GoString) (event : EventMessage)
    (sub : Subscription) (w : World) (decision : RateLimitDecision)
    → (ask_limiter h sub w).0 ≡ ok (some decision)
    → ((deliver_to_subscription env h trace event sub w).0 ≡ ok (rate_limited_result decision))
      × ((deliver_to_subscription env h trace event sub w).1.db ≡ w.db)
unfolding deliver_to_subscription ask_limiter
deliver_to_subscription-refused env h trace event sub w decision asked = ground arith

pub deliver_to_subscription-allowed :
    (env : Environment) (h : DeliveryHandler) (trace : GoString) (event : EventMessage)
    (sub : Subscription) (w : World)
    → (ask_limiter h sub w).0 ≡ ok none
    → deliver_to_subscription env h trace event sub w
      ≡ attempt_delivery env h trace event sub (ask_limiter h sub w).1
unfolding deliver_to_subscription
deliver_to_subscription-allowed env h trace event sub w asked = ground arith
