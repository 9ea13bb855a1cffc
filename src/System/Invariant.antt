-- ===== src/System/Invariant.antt =====
-- The invariant of the tables, in every state that the instances reach.
use webhook_service.Repository.World.{World}
use webhook_service.Repository.Invariant.{IsValid}
use webhook_service.Repository.Invariant.Operations.{
  Keeps-initialize_event_deliveries, Keeps-claim_deliveries, Keeps-claim_event_deliveries,
  Keeps-persist_claimed_delivery_outcome, Keeps-replay_failed_delivery, Keeps-redact_attempt_bodies,
  Keeps-delete_terminal_events, Keeps-create, Keeps-delete, Keeps-update_secret,
}
use webhook_service.Kafka.Handler.Keeps.{
  settled-apply_delivery_result, Keeps-process_deliveries, Keeps-process_batch,
}
use webhook_service.System.{
  Step, initialized, claimed, claimed_of_events, persisted, deliveries_processed, batch_processed,
  replayed, redacted, deleted, subscribed, unsubscribed, rotated, Reach, start, step,
}

Step-IsValid : {w w' : World} → Step w w' → IsValid w.db → IsValid w'.db
Step-IsValid (initialized env event subs w) v =
    (Keeps-initialize_event_deliveries env event subs).keeps w v
Step-IsValid (claimed env owner duration limit w) v =
    (Keeps-claim_deliveries env owner duration limit).keeps w v
Step-IsValid (claimed_of_events env ids owner duration limit w) v =
    (Keeps-claim_event_deliveries env ids owner duration limit).keeps w v
Step-IsValid (persisted env h d d' r earlier w good) v =
    (Keeps-persist_claimed_delivery_outcome env d' r.attempts
        (settled-apply_delivery_result env h d d' r earlier good)).keeps
      w v
Step-IsValid (deliveries_processed env h traces ds w) v =
    (Keeps-process_deliveries env h traces ds).keeps w v
Step-IsValid (batch_processed env h context msgs w) v =
    (Keeps-process_batch env h context msgs).keeps w v
Step-IsValid (replayed env id at w) v = (Keeps-replay_failed_delivery env id at).keeps w v
Step-IsValid (redacted env before limit w) v =
    (Keeps-redact_attempt_bodies env before limit).keeps w v
Step-IsValid (deleted env before limit w) v =
    (Keeps-delete_terminal_events env before limit).keeps w v
Step-IsValid (subscribed env sub w) v = (Keeps-create env sub).keeps w v
Step-IsValid (unsubscribed env id w) v = (Keeps-delete env id).keeps w v
Step-IsValid (rotated env id secret w) v = (Keeps-update_secret env id secret).keeps w v

-- Whatever operations the instances of the API and of the worker perform on the empty tables, one by
-- one or a whole batch at once, in any order, failed ones included: each delivery is leased exactly
-- while it is processing, it has an instant for its next attempt wherever it waits for one, its event
-- stands in its table, and neither an event's id, nor a delivery's id, nor a delivery's event and
-- subscription occur twice.
pub Reach-IsValid : {w : World} → Reach w → IsValid w.db
Reach-IsValid start = record {
  rows = tt;
  parents = tt;
  event_keys = tt;
  delivery_keys = tt;
  pair_keys = tt;
}
Reach-IsValid (step r s) = Step-IsValid s (Reach-IsValid r)
