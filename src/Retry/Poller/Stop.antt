-- ===== src/Retry/Poller/Stop.antt =====
-- internal/retry/poller.go: `Stop` waits for the goroutines, and they end without the loop.
use webhook_service.Prelude.{
  ℕ, zero, suc, ◌+◌, ◌<◌, ◌≡◌, ◌⊎◌, inl, inr, refl, ap, ◌∙◌, List, [], ◌∷◌, length, arith,
}
use webhook_service.Repository.World.{World, Environment}
use webhook_service.Repository.Reads.{ClaimedDelivery}
use webhook_service.Kafka.Delivery.{DeliveryHandler}
use webhook_service.Retry.Poller.{PollerConfig, Poller}
use webhook_service.Retry.Poller.Steps.{
  GoroutineStep, processed, sent, PollReach, next, in_goroutine,
}
use webhook_service.Retry.Poller.Slots.{PollReach-sends, length-remove}

-- No goroutine is left.
abbrev pub Idle : Poller → Type 0
Idle p = (p.running ≡ []) × (p.sending ≡ 0)

-- The goroutines alone come to an end from here, in whatever order they take their steps, and none of
-- them is ever stuck before its end.
pub data Ends (c : PollerConfig) : Poller → Type 0 where
  ends :
      (p : Poller)
      → (Idle p ⊎ ((p' : Poller) × GoroutineStep c p p'))
      → ((p' : Poller) → GoroutineStep c p p' → Ends c p')
      → Ends c p

-- The steps that the goroutines have left: two for a batch that runs, one for a send.
abbrev steps_left : Poller → ℕ
steps_left p = length p.running + length p.running + p.sending

steps_left-less :
    (c : PollerConfig) {p p' : Poller} → GoroutineStep c p p' → steps_left p' < steps_left p
steps_left-less c (processed env h w p before after batch e) =
    omega (arith, ap length e ∙ length-remove before batch after)
steps_left-less c (sent p n e room) = omega (arith, e)

module _ (env : Environment) (h : DeliveryHandler) (w : World) (c : PollerConfig) where
  has_step : (p : Poller) → PollReach c p → Idle p ⊎ ((p' : Poller) × GoroutineStep c p p')
  has_step p r = go p.running p.sending refl refl
    where
      go :
          (bs : List (List ClaimedDelivery)) (n : ℕ)
          → p.running ≡ bs
          → p.sending ≡ n
          → Idle p ⊎ ((p' : Poller) × GoroutineStep c p p')
      go (b ∷ bs) n e f = inr (_, processed env h w p [] bs b e)
      go [] (suc n) e f = inr (_, sent p n f (PollReach-sends c p n r f))
      go [] zero e f = inl (e, f)

  Ends-within : (n : ℕ) (p : Poller) → steps_left p < n → PollReach c p → Ends c p
  Ends-within zero p less r = absurd (omega (arith, less))
  Ends-within (suc n) p less r = ends p (has_step p r) λ p' s.
      Ends-within n p' (omega (arith, less, steps_left-less c s)) (next r (in_goroutine p p' s))

-- In every state that the poller reaches, also after the loop has returned, the goroutines that it has
-- started come to an end by themselves, in whatever order they take their steps and whatever their
-- processing answers: a goroutine that is not done can always take its next step.
pub PollReach-Ends :
    (env : Environment) (h : DeliveryHandler) (w : World) (c : PollerConfig) (p : Poller)
    → PollReach c p
    → Ends c p
PollReach-Ends env h w c p r = Ends-within env h w c (suc (steps_left p)) p (omega arith) r
