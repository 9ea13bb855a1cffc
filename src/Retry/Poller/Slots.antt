-- ===== src/Retry/Poller/Slots.antt =====
-- internal/retry/poller.go: the batches in flight never outnumber `MaxConcurrentBatches`, so that no
-- goroutine is left at its send, and the gauge of the active batches counts those that run.
use webhook_service.Prelude.{
  ℕ, suc, ◌+◌, ◌≤◌, ◌≡◌, refl, ap, ◌∙◌, ◌⊎◌, inl, inr, true, List, [], ◌∷◌, ◌++◌, length, arith,
}
use webhook_service.Prelude.Int.{ℤ, pos, negsuc, ◌+ℤ◌, ◌-ℤ◌, ltb_ℤ, leb_ℤ}
use webhook_service.Repository.World.{World, Environment, Result, ok, err}
use webhook_service.Repository.Reads.{ClaimedDelivery}
use webhook_service.Kafka.Delivery.{DeliveryHandler}
use webhook_service.Kafka.Handler.{Processed}
use webhook_service.Retry.Poller.{
  report_failure, PollerConfig, PollerMetric, Poller, process_retry_batch,
}
use webhook_service.Retry.Poller.Steps.{
  GoroutineStep, in_goroutine, PollStep, polled, stopped_before_claim, stopped, ticked, batch_done,
  processed, sent, PollReach, begin, next,
}
use webhook_service.Retry.Poller.Sound.{gauge, Sound}
use webhook_service.Retry.Poller.Claims.{poll-Sound, one_less, one_off}

gauge-report_failure :
    (r : Result Processed) (told : List PollerMetric) → gauge (report_failure r told) ≡ gauge told
gauge-report_failure (ok _) told = refl
gauge-report_failure (err e) told = refl

gauge-process_retry_batch :
    (env : Environment) (h : DeliveryHandler) (batch : List ClaimedDelivery) (w : World)
    (told : List PollerMetric)
    → gauge (process_retry_batch env h batch w told) ≡ gauge told
unfolding process_retry_batch
gauge-process_retry_batch env h batch w told = gauge-report_failure _ told

pub length-remove :
    {A : Type 0} (xs : List A) (x : A) (ys : List A)
    → length (xs ++ (x ∷ ys)) ≡ suc (length (xs ++ ys))
length-remove [] x ys = refl
length-remove (z ∷ xs) x ys = ap suc (length-remove xs x ys)

fewer_slots :
    (m n : ℕ) (max : ℤ)
    → m ≤ n
    → (n ≡ 0) ⊎ (leb_ℤ (pos n) max ≡ true)
    → (m ≡ 0) ⊎ (leb_ℤ (pos m) max ≡ true)
fewer_slots m n max h (inl zero_n) = inl (omega (arith, h, zero_n))
fewer_slots m n max h (inr fit) = inr (ground (arith, h, fit))

one_fewer : (a b f n : ℕ) → f ≡ suc n → a + (b + f) ≡ suc (a + (b + n))
one_fewer a b f n e = omega (arith, e)

GoroutineStep-Sound :
    (c : PollerConfig) {p p' : Poller} → GoroutineStep c p p' → Sound c p → Sound c p'
GoroutineStep-Sound c (processed env h w p before after batch e) s =
    let fewer = ap length e ∙ length-remove before batch after in
    record {
      count = s.count ∙ ap pos (omega (arith, fewer));
      slots = fewer_slots _ _ c.max_concurrent_batches (omega (arith, fewer)) s.slots;
      shown =
          ap (λ g. g +ℤ negsuc 0)
            (gauge-process_retry_batch env h batch w p.told ∙ s.shown ∙ ap pos fewer)
          ∙ one_off (length (before ++ after));
      idle = s.idle;
    }
GoroutineStep-Sound c (sent p n e room) s = record {
  count = s.count ∙ ap pos (omega (arith, e));
  slots = fewer_slots _ _ c.max_concurrent_batches (omega (arith, e)) s.slots;
  shown = s.shown;
  idle = s.idle;
}

PollStep-Sound : (c : PollerConfig) {p p' : Poller} → PollStep c p p' → Sound c p → Sound c p'
PollStep-Sound c (polled env w p at) s = poll-Sound env c w p at s
PollStep-Sound c (stopped_before_claim p at due) s = record {
  count = s.count;
  slots = s.slots;
  shown = s.shown;
  idle = λ e. absurd (cc);
}
PollStep-Sound c (stopped p at) s = record {
  count = s.count;
  slots = s.slots;
  shown = s.shown;
  idle = λ e. absurd (cc);
}
PollStep-Sound c (ticked p at) s = record {
  count = s.count;
  slots = s.slots;
  shown = s.shown;
  idle = λ e. absurd (cc);
}
PollStep-Sound c (batch_done p n at done) s = record {
  count =
      ap (λ a. a -ℤ pos 1) (s.count ∙ ap pos (one_fewer _ _ _ n done))
      ∙ one_less (length p.running + (p.sending + n));
  slots = fewer_slots _ _ c.max_concurrent_batches (omega (arith, done)) s.slots;
  shown = s.shown;
  idle = λ e. absurd (cc);
}
PollStep-Sound c (in_goroutine p p' g) s = GoroutineStep-Sound c g s

-- In every state that the poller and its goroutines reach, in any order of their steps and of the
-- ticks and signals: the loop's count is the number of batches in flight, which is at most
-- `MaxConcurrentBatches`; the gauge of the active batches is the number of those that run; and the
-- loop waits only where it has no free slot or its flag `draining` is cleared.
pub PollReach-Sound : (c : PollerConfig) {p : Poller} → PollReach c p → Sound c p
PollReach-Sound c begin = record {
  count = refl;
  slots = inl refl;
  shown = refl;
  idle = λ e. absurd (cc);
}
PollReach-Sound c (next r s) = PollStep-Sound c s (PollReach-Sound c r)

has_room :
    (k s f n : ℕ) (max : ℤ)
    → s ≡ suc n
    → (k + (s + f) ≡ 0) ⊎ (leb_ℤ (pos (k + (s + f))) max ≡ true)
    → ltb_ℤ (pos f) max ≡ true
has_room k s f n max e (inl zero_n) = absurd (omega (arith, e, zero_n))
has_room k s f n max e (inr fit) = ground (arith, e, fit)

-- A goroutine that is done with its batch finds room in the channel `batchDone`, also after the loop
-- has returned, so that `Stop` does not wait for ever for it.
pub PollReach-sends :
    (c : PollerConfig) (p : Poller) (n : ℕ)
    → PollReach c p
    → p.sending ≡ suc n
    → ltb_ℤ (pos p.finished) c.max_concurrent_batches ≡ true
PollReach-sends c p n r e =
    has_room (length p.running) p.sending p.finished n c.max_concurrent_batches e
      (PollReach-Sound c r).slots
