-- ===== src/Kafka/Handler/Rounds.antt =====
-- internal/kafka/handler.go and delivery.go: a delivery is attempted again only as long as attempts
-- remain, over all its rounds of claim, attempt and outcome.
use webhook_service.Prelude.{ℕ, suc, ◌≡◌, ◌⊎◌, inl, inr, refl, sym, ap, ◌∙◌, subst, GoString, arith}
use mathlib.Core.Path.{subst₂}
use webhook_service.Prelude.Int.{ℤ, pos, negsuc, ◌+ℤ◌, ◌<ℤ◌}
use webhook_service.Domain.Delivery.{Delivery}
use webhook_service.Repository.World.{World, Environment, ok}
use webhook_service.Kafka.Delivery.{
  throttled_outcome, retry, DeliveryResult, DeliveryHandler, deliver_delivery,
  message_from_delivery,
}
use webhook_service.Kafka.Delivery.Outcome.{attempts_allowed}
use webhook_service.Kafka.Delivery.Attempt.{Verdict}
use webhook_service.Kafka.Delivery.Report.{Held, Sent, deliver_delivery_lem}
use webhook_service.Kafka.Handler.{apply_delivery_result}
use webhook_service.Kafka.Handler.Applied.{Applied, counted, add_zero, apply_delivery_result_lem}

-- One round: the row `d` is delivered, and its outcome gives the row `d'`.
pub record Round (h : DeliveryHandler) (d d' : Delivery) : Type 0 where
  pub env : Environment
  pub trace : GoString
  pub before : World
  pub after : World
  pub result : DeliveryResult
  pub delivered : (deliver_delivery env h trace d before).0 ≡ ok result
  pub applied : (apply_delivery_result env h d result after).0 ≡ ok d'

-- The attempts that a delivery is allowed.
abbrev pub allowed : DeliveryHandler → Delivery → ℤ
allowed h d = attempts_allowed h (message_from_delivery d)

ok_injective : {A : Type 0} {a b : A} → ok a ≡ ok b → a ≡ b
ok_injective h = cc

Round-Applied : {h : DeliveryHandler} {d d' : Delivery} (r : Round h d d') → Applied d r.result d'
Round-Applied {h} {d} {d'} r =
    let (x, e, applied, same) = apply_delivery_result_lem r.env h d r.result r.after in
    subst (Applied d r.result) (ok_injective (sym e ∙ r.applied)) applied

counted-retry : (r : DeliveryResult) → r.outcome ≡ retry → counted r ≡ 1
counted-retry r o = ground arith

Verdict-retry :
    (h : DeliveryHandler) (d : Delivery) (r : DeliveryResult)
    → Held r ⊎ Sent h d r
    → r.outcome ≡ retry
    → d.attempts +ℤ pos 1 <ℤ allowed h d
unfolding message_from_delivery
Verdict-retry h d r (inl held) o = absurd (cc (held.0, o))
Verdict-retry h d r (inr (a, e, i, s, g, n, v)) o =
    (subst (λ x. Verdict h (message_from_delivery d) x a.status_code) o v).0

-- A round that ends in a retry has counted one attempt, and another one is allowed.
Round-retry :
    {h : DeliveryHandler} {d d' : Delivery} (r : Round h d d')
    → r.result.outcome ≡ retry
    → (d'.attempts ≡ d.attempts +ℤ pos 1) × (d.attempts +ℤ pos 1 <ℤ allowed h d)
Round-retry {h} {d} {d'} r o =
    let (x, e, report, same) = deliver_delivery_lem r.env h r.trace d r.before in
    let q = ok_injective (sym e ∙ r.delivered) in
    (
      (Round-Applied r).attempted ∙ ap (λ n. d.attempts +ℤ pos n) (counted-retry r.result o),
      Verdict-retry h d r.result (subst (λ y. Held y ⊎ Sent h d y) q report) o,
    )

Round-throttled :
    {h : DeliveryHandler} {d d' : Delivery} (r : Round h d d')
    → r.result.outcome ≡ throttled_outcome
    → d'.attempts ≡ d.attempts
Round-throttled {h} {d} r o = ground (arith, (Round-Applied r).attempted, o, add_zero d.attempts)

Round-allowed :
    {h : DeliveryHandler} {d d' : Delivery} (r : Round h d d') → allowed h d' ≡ allowed h d
unfolding message_from_delivery
Round-allowed r = ground (arith, (Round-Applied r).target.same_max_attempts)

-- The row is claimed again between two rounds, which leaves its attempts and its limit alone.
pub record Reclaimed (d e : Delivery) : Type 0 where
  pub same_attempts : e.attempts ≡ d.attempts
  pub same_limit : e.max_attempts ≡ d.max_attempts

-- The rounds that leave a delivery waiting, from the row `d₀` on: `n` of them made an attempt, and the
-- others were throttled.
pub data Waiting (h : DeliveryHandler) (d₀ : Delivery) : Delivery → ℕ → Type 0 where
  start : Waiting h d₀ d₀ 0
  retried :
      {d e d' : Delivery} {n : ℕ}
      → Waiting h d₀ d n
      → Reclaimed d e
      → (r : Round h e d') → r.result.outcome ≡ retry
      → Waiting h d₀ d' (suc n)
  held :
      {d e d' : Delivery} {n : ℕ}
      → Waiting h d₀ d n
      → Reclaimed d e
      → (r : Round h e d') → r.result.outcome ≡ throttled_outcome
      → Waiting h d₀ d' n

Reclaimed-allowed :
    (h : DeliveryHandler) (d e : Delivery) → Reclaimed d e → allowed h e ≡ allowed h d
unfolding message_from_delivery
Reclaimed-allowed h d e c = ground (arith, c.same_limit)

add_suc : (x : ℤ) (n : ℕ) → (x +ℤ pos n) +ℤ pos 1 ≡ x +ℤ pos (suc n)
unfolding ◌+ℤ◌
add_suc (pos m) n = ground arith
add_suc (negsuc m) n = ground arith

-- The rows stand at the attempts that the rounds have made, under one limit.
Waiting-counts :
    {h : DeliveryHandler} {d₀ d : Delivery} {n : ℕ}
    → Waiting h d₀ d n
    → (d.attempts ≡ d₀.attempts +ℤ pos n) × (allowed h d ≡ allowed h d₀)
Waiting-counts {d₀ = d₀} start = (sym (add_zero d₀.attempts), refl)
Waiting-counts {h = h} {d₀ = d₀} (retried {d = d} {e = e} {n = n} w c r o) =
    let (a, l) = Waiting-counts w in
    (
      (Round-retry r o).0 ∙ ap (λ x. x +ℤ pos 1) (c.same_attempts ∙ a) ∙ add_suc d₀.attempts n,
      Round-allowed r ∙ Reclaimed-allowed h d e c ∙ l,
    )
Waiting-counts {h = h} (held {d = d} {e = e} w c r o) =
    let (a, l) = Waiting-counts w in
    (Round-throttled r o ∙ c.same_attempts ∙ a, Round-allowed r ∙ Reclaimed-allowed h d e c ∙ l)

-- However often a delivery is throttled, claimed and attempted, it waits for a further attempt only
-- while fewer attempts than allowed have been made: its retries come to an end.
pub Waiting-bounded :
    (h : DeliveryHandler) (d₀ d : Delivery) (n : ℕ)
    → Waiting h d₀ d (suc n)
    → d₀.attempts +ℤ pos (suc n) <ℤ allowed h d₀
Waiting-bounded h d₀ d n (retried {d = d1} {e = e} w c r o) =
    let (a, l) = Waiting-counts w in
    subst₂ ◌<ℤ◌ (ap (λ x. x +ℤ pos 1) (c.same_attempts ∙ a) ∙ add_suc d₀.attempts n)
      (Reclaimed-allowed h d1 e c ∙ l) (Round-retry r o).1
Waiting-bounded h d₀ d n (held {d = d1} w c r o) = Waiting-bounded h d₀ d1 n w
