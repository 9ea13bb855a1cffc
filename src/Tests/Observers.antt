-- ===== src/Tests/Observers.antt =====
-- Runs of the theorems on the metrics of the worker.
use webhook_service.Prelude.{◌≡◌, refl, length}
use webhook_service.Prelude.Int.{pos}
use webhook_service.Retry.Poller.Steps.{begin, next, polled}
use webhook_service.Retry.Poller.{PollerConfig, Poller, started, default_poller_config, poll}
use webhook_service.App.Observers.Polls.{shown_by, Plausible, PollReach-Shown}
use webhook_service.Tests.Data.{with_row, pending_row, calm}

abbrev single : PollerConfig
single = record default_poller_config { batch_size = pos 1 }

abbrev begun : Poller
begun = (poll calm single (with_row pending_row) started).0

PollReach-Shown_example :
    ((shown_by begun.told).retry_active_batches ≡ pos (length begun.running))
    × Plausible (shown_by begun.told)
PollReach-Shown_example =
    PollReach-Shown single (next begin (polled calm (with_row pending_row) started refl))
