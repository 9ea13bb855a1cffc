-- ===== src/Tests/Retry.antt =====
-- Runs of the theorems on the retry poller.
use webhook_service.Prelude.{◌≡◌, refl, [], ◌∷◌, lit}
use webhook_service.Prelude.Int.{pos, ◌+ℤ◌}
use webhook_service.Repository.World.{World, exec, time_now, query}
use webhook_service.Repository.Sorting.{sort_by, insert_by}
use webhook_service.Repository.Reads.{ClaimedDelivery}
use webhook_service.Repository.Claim.{
  claim_deliveries, claim_rows, candidates, claimable, due_order, claim_of, lease,
  postgres_interval,
}
use webhook_service.Retry.Poller.{
  returned, polling, waiting, PollerConfig, Poller, default_poller_config, started, poll, on_claim,
  start_batch, record_lags, record_scheduling_lag, scheduled_at, scheduling_lag,
}
use webhook_service.Retry.Poller.Steps.{PollReach, begin, next, polled, stopped}
use webhook_service.Retry.Poller.Sound.{Sound}
use webhook_service.Retry.Poller.Slots.{PollReach-Sound}
use webhook_service.Retry.Poller.Stop.{Ends, PollReach-Ends}
use webhook_service.Retry.Poller.Lag.{record_scheduling_lag-reclaimed}
use webhook_service.Tests.Data.{with_row, leased_row, pending_row, calm, handler}

abbrev one_row : World
one_row = with_row pending_row

-- Batches of one row.
abbrev single : PollerConfig
single = record default_poller_config { batch_size = pos 1 }

abbrev begun : Poller
begun = (poll calm single one_row started).0

begun-PollReach : PollReach single begun
begun-PollReach = next begin (polled calm one_row started refl)

PollReach-Sound_example : Sound single begun
PollReach-Sound_example = PollReach-Sound single begun-PollReach

abbrev batch : ClaimedDelivery
batch = claim_of (pos 1000) (lit "worker-1") (pos 30000000000) pending_row

begun-running : begun.running ≡ (batch ∷ []) ∷ []
unfolding poll on_claim start_batch record_lags record_scheduling_lag scheduled_at exec query
    time_now claim_deliveries claim_rows candidates claimable due_order claim_of lease sort_by
    insert_by
begun-running = refl

-- It waits, since it has no free slot, and is stopped while the batch runs.
abbrev full : Poller
full = (poll calm single one_row begun).0

abbrev done : Poller
done = record full { place = returned }

begun-polling : begun.place ≡ polling
unfolding poll on_claim start_batch record_lags record_scheduling_lag scheduled_at exec query
    time_now claim_deliveries claim_rows candidates claimable due_order claim_of lease sort_by
    insert_by
begun-polling = refl

full-waiting : full.place ≡ waiting
unfolding poll on_claim start_batch record_lags record_scheduling_lag scheduled_at exec query
    time_now claim_deliveries claim_rows candidates claimable due_order claim_of lease sort_by
    insert_by ◌+ℤ◌
full-waiting = refl

PollReach-Ends_example : Ends single done
PollReach-Ends_example = PollReach-Ends calm handler one_row single done (
    next (next begun-PollReach (polled calm one_row begun begun-polling))
      (stopped full full-waiting))

record_scheduling_lag-reclaimed_example :
    (record_scheduling_lag calm
      (claim_of (pos 1000) (lit "w") (pos 30000) leased_row)
      (with_row leased_row)).0
    ≡ scheduling_lag (pos 0) ∷ []
unfolding ◌+ℤ◌ postgres_interval
record_scheduling_lag-reclaimed_example =
    record_scheduling_lag-reclaimed calm (pos 1000) (lit "w") (pos 30000) leased_row
      (with_row leased_row) refl refl
