-- ===== src/Repository/Replay.antt =====
-- internal/repository/postgres/event.go: `ReplayFailedDelivery`.
pub mod Generation
use webhook_service.Prelude.{
  ℕ, ◌&&◌, Option, none, some, GoString, str_eq, update_where, count_where, ◌==◌,
}
use webhook_service.Domain.Event.{Time, Err, not_found, replay_not_eligible}
use webhook_service.Domain.Delivery.{Delivery, DeliveryStatus, status_eq, schedule_replay}
use webhook_service.Repository.World.{
  Database, Environment, Action, ◌>>=◌, ◌>>◌, pure, throw, require, query, exec, transaction,
}
use webhook_service.Repository.Reads.{find}
use webhook_service.Repository.Outcome.{update_event_projection}

-- `SET generation = $2, …`.
unfoldable pub with_replay : Delivery → Delivery → Delivery
with_replay d row = record row {
  generation = d.generation;
  status = d.status;
  attempts = d.attempts;
  next_attempt_at = d.next_attempt_at;
  last_error = d.last_error;
  processing_owner = d.processing_owner;
  processing_deadline = d.processing_deadline;
  delivered_at = d.delivered_at;
  updated_at = d.updated_at;
}

unfoldable pub update_replay : GoString → Delivery → Database → ℕ × Database
update_replay id d db =
    let failed_row =
      λ (row : Delivery). str_eq row.id id && status_eq row.status DeliveryStatus.failed in
    (
      count_where failed_row db.deliveries,
      record db { deliveries = update_where failed_row (with_replay d) db.deliveries },
    )

abbrev pub or_not_found : Option Delivery → Action Delivery
or_not_found none = throw not_found
or_not_found (some d) = pure d

-- The error of `ScheduleReplay`, or the delivery as it leaves it.
abbrev pub scheduled : Option Err × Delivery → Action Delivery
scheduled (none, d) = pure d
scheduled (some e, d) = throw e

unfoldable pub replay_body : Environment → Time → GoString → Time → Action Delivery
replay_body env tx_now id scheduled_at = do
  row ← query env (λ _ _ db. find (λ d. str_eq d.id id) db.deliveries)
  found ← or_not_found row
  d ← scheduled (schedule_replay scheduled_at found)
  affected ← exec env (λ _ _ db. some (update_replay id d db))
  require (affected == 1) replay_not_eligible
  update_event_projection env tx_now d.event_id
  pure d

unfoldable pub replay_failed_delivery : Environment → GoString → Time → Action Delivery
replay_failed_delivery env id scheduled_at =
    transaction env (λ tx_now. replay_body env tx_now id scheduled_at)
