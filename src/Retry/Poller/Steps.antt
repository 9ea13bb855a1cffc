-- ===== src/Retry/Poller/Steps.antt =====
-- internal/retry/poller.go: the steps of `Start` and of the goroutines that it begins, in any order
-- that the channels allow. What others do to the tables in between is any world.
use webhook_service.Prelude.{ℕ, suc, ◌≡◌, true, List, ◌∷◌, ◌++◌}
use webhook_service.Prelude.Int.{pos, negsuc, ◌-ℤ◌, ltb_ℤ}
use webhook_service.Repository.World.{World, Environment}
use webhook_service.Repository.Reads.{ClaimedDelivery}
use webhook_service.Kafka.Delivery.{DeliveryHandler}
use webhook_service.Retry.Poller.{
  PollerConfig, Poller, polling, waiting, returned, started, active_batches, may_claim, poll,
  process_retry_batch,
}

-- The goroutines: one processes its batch, and then sends to the channel `batchDone`, which has room
-- for `MaxConcurrentBatches` messages; a send waits for room.
pub data GoroutineStep (c : PollerConfig) : Poller → Poller → Type 0 where
  processed :
      (env : Environment) (h : DeliveryHandler) (w : World) (p : Poller)
      (before after : List (List ClaimedDelivery)) (batch : List ClaimedDelivery)
      → p.running ≡ before ++ (batch ∷ after)
      → GoroutineStep c p (record p {
        running = before ++ after;
        sending = suc p.sending;
        told = active_batches (negsuc 0) ∷ process_retry_batch env h batch w p.told;
      })
  sent :
      (p : Poller) (n : ℕ)
      → p.sending ≡ suc n
      → ltb_ℤ (pos p.finished) c.max_concurrent_batches ≡ true
      → GoroutineStep c p (record p { sending = n; finished = suc p.finished })

-- `Stop` and the end of the context are seen where a claim is due and in the `select`.
pub data PollStep (c : PollerConfig) : Poller → Poller → Type 0 where
  polled :
      (env : Environment) (w : World) (p : Poller)
      → p.place ≡ polling
      → PollStep c p (poll env c w p).0
  stopped_before_claim :
      (p : Poller)
      → p.place ≡ polling
      → may_claim c p ≡ true
      → PollStep c p (record p { place = returned })
  stopped : (p : Poller) → p.place ≡ waiting → PollStep c p (record p { place = returned })
  ticked :
      (p : Poller)
      → p.place ≡ waiting
      → PollStep c p (record p { place = polling; draining = true })
  batch_done :
      (p : Poller) (n : ℕ)
      → p.place ≡ waiting
      → p.finished ≡ suc n
      → PollStep c p (record p { place = polling; active = p.active -ℤ pos 1; finished = n })
  in_goroutine : (p p' : Poller) → GoroutineStep c p p' → PollStep c p p'

pub data PollReach (c : PollerConfig) : Poller → Type 0 where
  begin : PollReach c started
  next : {p p' : Poller} → PollReach c p → PollStep c p p' → PollReach c p'
