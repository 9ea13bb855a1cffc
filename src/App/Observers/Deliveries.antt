-- ===== src/App/Observers/Deliveries.antt =====
-- internal/kafka/handler.go with internal/app/worker.go: the worker's counters after the processing of
-- deliveries.
use webhook_service.Prelude.{ℕ, suc, ◌+◌, Option, none, some, List, [], ◌∷◌, length}
use webhook_service.Domain.Delivery.{Delivery}
use webhook_service.Repository.World.{World}
use webhook_service.Kafka.Handler.{Processed}
use webhook_service.App.Observers.Counts.{Counts}

-- The deliveries of a list without its nil pointers.
abbrev pub given : List (Option Delivery) → ℕ
given [] = 0
given (none ∷ ds) = given ds
given (some d ∷ ds) = suc (given ds)

abbrev all_filed : Processed → ℕ
all_filed p = length p.delivered + (length p.retrying + length p.failed)
