-- ===== src/Kafka/Handler/Keeps.antt =====
-- internal/kafka/handler.go: the handling of deliveries and of a batch of messages keeps the invariant
-- of the tables, however it ends.
use webhook_service.Prelude.{
  true, is_some, arith, ℕ, zero, suc, ◌≡◌, sym, subst, Option, none, some, List, [], ◌∷◌, map,
  GoString,
}
use webhook_service.Prelude.Int.{pos}
use webhook_service.Domain.Delivery.{Delivery}
use webhook_service.Repository.World.{World, Environment, ok}
use webhook_service.Repository.World.Preserves.{
  Preserves, Preserves-pure, Preserves->>=, Preserves->>=_ok, Preserves-time_now, Preserves-query,
}
use webhook_service.Repository.Reads.{get_deliveries_by_event_id}
use webhook_service.Repository.Subscriptions.{SubscriptionMap, get_by_event_types}
use webhook_service.Repository.Invariant.{IsValid}
use webhook_service.Repository.Invariant.Operations.{
  Keeps-initialize_event_deliveries, Keeps-claim_event_deliveries,
  Keeps-persist_claimed_delivery_outcome,
}
use webhook_service.Kafka.Message.{EventMessage}
use webhook_service.Kafka.Delivery.{
  DeliveryHandler, DeliveryResult, DeliveryOutcome, success, throttled_outcome, retry, failure,
  deliver_delivery,
}
use webhook_service.Kafka.Delivery.Report.{deliver_delivery_lem}
use webhook_service.Kafka.Handler.{
  Traces, trace_of, file, event_types, with_max_attempts, apply_delivery_result, process_delivery,
  process_deliveries, initialize_events, claim_and_process, categorize_messages, process_messages,
  process_batch,
}
use webhook_service.Kafka.Handler.Applied.{
  status_of, waits, apply_delivery_result-Applied, apply_delivery_result_lem,
}
use webhook_service.Repository.Invariant.Changes.{settled}

settled-outcome :
    (o : DeliveryOutcome) (d : Delivery)
    → d.status ≡ status_of o
    → is_some d.next_attempt_at ≡ waits o
    → settled d ≡ true
settled-outcome success d s n = ground (arith, s, n)
settled-outcome throttled_outcome d s n = ground (arith, s, n)
settled-outcome retry d s n = ground (arith, s, n)
settled-outcome failure d s n = ground (arith, s, n)

-- An outcome that was applied may be written.
pub settled-apply_delivery_result :
    (env : Environment) (h : DeliveryHandler) (d d' : Delivery) (r : DeliveryResult) (w : World)
    → (apply_delivery_result env h d r w).0 ≡ ok d'
    → settled d' ≡ true
settled-apply_delivery_result env h d d' r w good =
    let a = (apply_delivery_result-Applied env h d r w good).0 in
    settled-outcome r.outcome d' a.led_to a.scheduled

Keeps-deliver_delivery :
    (env : Environment) (h : DeliveryHandler) (trace : GoString) (d : Delivery)
    → Preserves IsValid (deliver_delivery env h trace d)
Keeps-deliver_delivery env h trace d = record {
  keeps = λ w v.
      let (r, good, held, same) = deliver_delivery_lem env h trace d w in
      subst IsValid (sym same) v;
}

Keeps-apply_delivery_result :
    (env : Environment) (h : DeliveryHandler) (d : Delivery) (r : DeliveryResult)
    → Preserves IsValid (apply_delivery_result env h d r)
Keeps-apply_delivery_result env h d r = record {
  keeps = λ w v.
      let (d', good, applied, same) = apply_delivery_result_lem env h d r w in
      subst IsValid (sym same) v;
}

Keeps-process_delivery :
    (env : Environment) (h : DeliveryHandler) (traces : Traces) (d : Delivery)
    → Preserves IsValid (process_delivery env h traces d)
unfolding process_delivery
Keeps-process_delivery env h traces d =
    Preserves->>= (Keeps-deliver_delivery env h (trace_of traces d.event_id) d) λ r.
      Preserves->>=_ok (Keeps-apply_delivery_result env h d r) λ w d' good.
        Preserves->>=
          (Keeps-persist_claimed_delivery_outcome env d' r.attempts
            (settled-apply_delivery_result env h d d' r w good))
          λ _. Preserves-pure d'

pub Keeps-process_deliveries :
    (env : Environment) (h : DeliveryHandler) (traces : Traces) (ds : List (Option Delivery))
    → Preserves IsValid (process_deliveries env h traces ds)
unfolding process_deliveries
Keeps-process_deliveries env h traces [] = Preserves-pure _
Keeps-process_deliveries env h traces (none ∷ ds) = Keeps-process_deliveries env h traces ds
Keeps-process_deliveries env h traces (some d ∷ ds) =
    Preserves->>= (Keeps-process_delivery env h traces d)
      λ d'. Preserves->>= (Keeps-process_deliveries env h traces ds) λ p. Preserves-pure (file d' p)

Keeps-initialize_events :
    (env : Environment) (subs : SubscriptionMap) (msgs : List EventMessage)
    → Preserves IsValid (initialize_events env subs msgs)
unfolding initialize_events
Keeps-initialize_events env subs [] = Preserves-pure 0
Keeps-initialize_events env subs (msg ∷ msgs) = Preserves->>= (Preserves-time_now env) λ now.
    Preserves->>= (Keeps-initialize_event_deliveries env _ _)
      λ rows. Preserves->>= (Keeps-initialize_events env subs msgs) λ n. Preserves-pure _

Keeps-claim_and_process :
    (env : Environment) (h : DeliveryHandler) (traces : Traces) (ids : List GoString) (total : ℕ)
    → Preserves IsValid (claim_and_process env h traces ids total)
unfolding claim_and_process
Keeps-claim_and_process env h traces ids zero = Preserves-pure tt
Keeps-claim_and_process env h traces ids (suc n) =
    Preserves->>=
      (Keeps-claim_event_deliveries env ids h.instance_id h.lease_duration (pos (suc n)))
      λ claimed. Preserves->>= (Keeps-process_deliveries env h traces _) λ _. Preserves-pure tt

Keeps-categorize_messages :
    (env : Environment) (batch msgs : List EventMessage)
    → Preserves IsValid (categorize_messages env batch msgs)
unfolding categorize_messages get_deliveries_by_event_id
Keeps-categorize_messages env batch [] = Preserves-pure _
Keeps-categorize_messages env batch (msg ∷ msgs) = Preserves->>= (Preserves-query env _) λ rows.
    Preserves->>= (Preserves-time_now env)
      λ now. Preserves->>= (Keeps-categorize_messages env batch msgs) λ c. Preserves-pure _

Keeps-get_by_event_types :
    (env : Environment) (types : List GoString) → Preserves IsValid (get_by_event_types env types)
unfolding get_by_event_types
Keeps-get_by_event_types env [] = Preserves-pure []
Keeps-get_by_event_types env (t ∷ types) =
    Preserves->>= (Preserves-query env _) λ subs. Preserves-pure _

Keeps-process_messages :
    (env : Environment) (h : DeliveryHandler) (context : GoString) (msgs : List EventMessage)
    → Preserves IsValid (process_messages env h context msgs)
unfolding process_messages
Keeps-process_messages env h context msgs =
    Preserves->>= (Keeps-get_by_event_types env (event_types msgs)) λ subs.
      Preserves->>= (Keeps-initialize_events env subs msgs) λ total.
        Preserves->>= (Keeps-claim_and_process env h _ _ total)
          λ _. Keeps-categorize_messages env msgs msgs

-- A batch.
pub Keeps-process_batch :
    (env : Environment) (h : DeliveryHandler) (context : GoString) (msgs : List EventMessage)
    → Preserves IsValid (process_batch env h context msgs)
unfolding process_batch
Keeps-process_batch env h context [] = Preserves-pure _
Keeps-process_batch env h context (m ∷ ms) =
    Keeps-process_messages env h context (map (with_max_attempts h) (m ∷ ms))
