-- ===== src/Kafka/Handler/Batch.antt =====
-- internal/kafka/handler.go: a batch that has been processed without an error is stored.
use webhook_service.Prelude.{
  ℕ, zero, suc, ◌≡◌, refl, sym, ap, ◌∙◌, subst, Option, none, some, List, [], ◌∷◌, map, GoString,
  arith, All,
}
use webhook_service.Prelude.Int.{pos}
use webhook_service.Domain.Delivery.{Delivery}
use webhook_service.Repository.World.{
  Database, World, Environment, ok, pure, advance, query, time_now, ◌>>=◌,
}
use webhook_service.Repository.World.Inversion.{>>=-eq-ok}
use webhook_service.Repository.Reads.{ClaimedDelivery, get_deliveries_by_event_id}
use webhook_service.Repository.Claim.{claim_event_deliveries}
use webhook_service.Repository.Claim.Granted.{claim_event_deliveries-Grants}
use webhook_service.Repository.Outcome.{persist_claimed_delivery_outcome}
use webhook_service.Repository.Subscriptions.{SubscriptionMap, get_by_event_types}
use webhook_service.Kafka.Message.{EventMessage}
use webhook_service.Kafka.Delivery.{DeliveryHandler, DeliveryResult, deliver_delivery}
use webhook_service.Kafka.Delivery.Report.{deliver_delivery_lem}
use webhook_service.Kafka.Handler.{
  Traces, trace_of, Categories, Processed, file, delivery_of, ids_of, apply_delivery_result,
  process_delivery, process_deliveries, initialize_events, claim_and_process, categorize_messages,
  process_messages, process_batch, with_max_attempts, event_types, traces_of,
}
use webhook_service.Kafka.Handler.Applied.{apply_delivery_result_lem}
use webhook_service.Kafka.Handler.Stored.{
  Stored, Stored-persist, Stored-initialize, kept-initialize, initialize_events_step,
}

kept-initialize_events :
    (env : Environment) (subs : SubscriptionMap) (msgs : List EventMessage) (w : World)
    (id : GoString) {n : ℕ}
    → (initialize_events env subs msgs w).0 ≡ ok n
    → Stored id w.db
    → Stored id (initialize_events env subs msgs w).1.db
unfolding initialize_events
kept-initialize_events env subs [] w id h s = s
kept-initialize_events env subs (msg ∷ msgs) w id h s =
    let (rows, k, e1, e2, same) = initialize_events_step env subs msg msgs w h in
    subst (Stored id) (sym same)
      (kept-initialize_events env subs msgs _ id e2 (kept-initialize env _ _ (advance w) id e1 s))

Stored-initialize_events :
    (env : Environment) (subs : SubscriptionMap) (msgs : List EventMessage) (w : World) {n : ℕ}
    → (initialize_events env subs msgs w).0 ≡ ok n
    → All (λ (m : EventMessage). Stored m.id (initialize_events env subs msgs w).1.db) msgs
unfolding initialize_events
Stored-initialize_events env subs [] w h = tt
Stored-initialize_events env subs (msg ∷ msgs) w h =
    let (rows, k, e1, e2, same) = initialize_events_step env subs msg msgs w h in
    subst (λ db. All (λ (m : EventMessage). Stored m.id db) (msg ∷ msgs)) (sym same)
      (
        kept-initialize_events env subs msgs _ msg.id e2 (Stored-initialize env _ _ (advance w) e1),
        Stored-initialize_events env subs msgs _ e2,
      )

kept-process_delivery :
    (env : Environment) (h : DeliveryHandler) (traces : Traces) (d : Delivery) (w : World)
    (id : GoString) {d' : Delivery}
    → (process_delivery env h traces d w).0 ≡ ok d'
    → Stored id w.db
    → Stored id (process_delivery env h traces d w).1.db
unfolding process_delivery
kept-process_delivery env h traces d w id good s =
    let deliver = deliver_delivery env h (trace_of traces d.event_id) d in
    let persist = λ (r : DeliveryResult) (d' : Delivery).
      persist_claimed_delivery_outcome env (some d') r.attempts >>= λ _. pure d' in
    let (r, e1, e2) =
      >>=-eq-ok deliver (λ r. apply_delivery_result env h d r >>= persist r) w good in
    let w1 = (deliver w).1 in
    let (r', _, _, same1) = deliver_delivery_lem env h (trace_of traces d.event_id) d w in
    let (d2, e3, e4) =
      >>=-eq-ok (apply_delivery_result env h d r) (persist r) w1 (sym (ap (λ x. x.0) e2) ∙ good) in
    let w2 = (apply_delivery_result env h d r w1).1 in
    let (d3, _, _, same2) = apply_delivery_result_lem env h d r w1 in
    let (u, e5, e6) =
      >>=-eq-ok (persist_claimed_delivery_outcome env (some d2) r.attempts) (λ _. pure d2) w2
        (sym (ap (λ x. x.0) (e2 ∙ e4)) ∙ good) in
    subst (Stored id) (sym (ap (λ x. x.1.db) (e2 ∙ e4 ∙ e6)))
      (Stored-persist env d2 r.attempts w2 id e5 (subst (Stored id) (sym (same2 ∙ same1)) s))

kept-process_deliveries :
    (env : Environment) (h : DeliveryHandler) (traces : Traces) (ds : List (Option Delivery))
    (w : World) (id : GoString) {p : Processed}
    → (process_deliveries env h traces ds w).0 ≡ ok p
    → Stored id w.db
    → Stored id (process_deliveries env h traces ds w).1.db
unfolding process_deliveries
kept-process_deliveries env h traces [] w id good s = s
kept-process_deliveries env h traces (none ∷ ds) w id good s =
    kept-process_deliveries env h traces ds w id good s
kept-process_deliveries env h traces (some d ∷ ds) w id good s =
    let rest = process_deliveries env h traces ds in
    let (d', e1, e2) =
      >>=-eq-ok (process_delivery env h traces d) (λ d'. rest >>= λ p. pure (file d' p)) w good in
    let w1 = (process_delivery env h traces d w).1 in
    let (p, e3, e4) = >>=-eq-ok rest (λ p. pure (file d' p)) w1 (sym (ap (λ x. x.0) e2) ∙ good) in
    subst (Stored id) (sym (ap (λ x. x.1.db) (e2 ∙ e4))) (
      kept-process_deliveries env h traces ds w1 id e3
        (kept-process_delivery env h traces d w id e1 s))

kept-claim_and_process :
    (env : Environment) (h : DeliveryHandler) (traces : Traces) (ids : List GoString) (n : ℕ)
    (w : World) (id : GoString)
    → (claim_and_process env h traces ids n w).0 ≡ ok tt
    → Stored id w.db
    → Stored id (claim_and_process env h traces ids n w).1.db
unfolding claim_and_process
kept-claim_and_process env h traces ids zero w id good s = s
kept-claim_and_process env h traces ids (suc n) w id good s =
    let claim = claim_event_deliveries env ids h.instance_id h.lease_duration (pos (suc n)) in
    let work = λ (claimed : List ClaimedDelivery).
      process_deliveries env h traces (map delivery_of claimed) in
    let (claimed, e1, e2) = >>=-eq-ok claim (λ c. work c >>= λ _. pure tt) w good in
    let granted =
      claim_event_deliveries-Grants env ids h.instance_id h.lease_duration (pos (suc n)) w e1 in
    let w1 = (claim w).1 in
    let (p, e3, e4) = >>=-eq-ok (work claimed) (λ _. pure tt) w1 (sym (ap (λ x. x.0) e2) ∙ good) in
    subst (Stored id) (sym (ap (λ x. x.1.db) (e2 ∙ e4))) (
      kept-process_deliveries env h traces (map delivery_of claimed) w1 id e3
        (subst (Stored id) (sym granted.leased) s))

same-categorize_messages :
    (env : Environment) (batch msgs : List EventMessage) (w : World)
    → (categorize_messages env batch msgs w).1.db ≡ w.db
unfolding categorize_messages get_deliveries_by_event_id time_now query
same-categorize_messages env batch [] w = refl
same-categorize_messages env batch (msg ∷ msgs) w =
    ground (arith, same-categorize_messages env batch msgs (advance (advance w)))

All-map :
    {P Q : EventMessage → Type 0} (ms : List EventMessage)
    → ((m : EventMessage) → P m → Q m)
    → All P ms
    → All Q ms
All-map [] f h = tt
All-map (m ∷ ms) f h = (f m h.0, All-map ms f h.1)

id-with_max_attempts : (h : DeliveryHandler) (m : EventMessage) → (with_max_attempts h m).id ≡ m.id
unfolding with_max_attempts
id-with_max_attempts h m = ground arith

-- Filling in the number of attempts leaves the ids alone.
unnamed :
    (h : DeliveryHandler) (db : Database) (ms : List EventMessage)
    → All (λ (m : EventMessage). Stored m.id db) (map (with_max_attempts h) ms)
    → All (λ (m : EventMessage). Stored m.id db) ms
unnamed h db [] s = tt
unnamed h db (m ∷ ms) s =
    (subst (λ i. Stored i db) (id-with_max_attempts h m) s.0, unnamed h db ms s.1)

process_messages-Stored :
    (env : Environment) (h : DeliveryHandler) (context : GoString) (msgs : List EventMessage)
    (w : World) {c : Categories}
    → (process_messages env h context msgs w).0 ≡ ok c
    → All (λ (m : EventMessage). Stored m.id (process_messages env h context msgs w).1.db) msgs
unfolding process_messages
process_messages-Stored env h context msgs w good =
    let traces : Traces = record { by_event = traces_of msgs []; context = context } in
    let work = λ (total : ℕ). claim_and_process env h traces (ids_of msgs) total >>= λ _.
    categorize_messages env msgs msgs in
    let load = λ (subs : SubscriptionMap). initialize_events env subs msgs >>= work in
    let (subs, e1, e2) = >>=-eq-ok (get_by_event_types env (event_types msgs)) load w good in
    let w1 = (get_by_event_types env (event_types msgs) w).1 in
    let (total, e3, e4) =
      >>=-eq-ok (initialize_events env subs msgs) work w1 (sym (ap (λ x. x.0) e2) ∙ good) in
    let w2 = (initialize_events env subs msgs w1).1 in
    let claim = claim_and_process env h traces (ids_of msgs) total in
    let (u, e5, e6) =
      >>=-eq-ok claim (λ _. categorize_messages env msgs msgs) w2
        (sym (ap (λ x. x.0) (e2 ∙ e4)) ∙ good) in
    let last = same-categorize_messages env msgs msgs (claim w2).1 in
    All-map msgs
      (λ m s.
        subst (Stored m.id) (sym (ap (λ x. x.1.db) (e2 ∙ e4 ∙ e6) ∙ last))
          (kept-claim_and_process env h traces (ids_of msgs) total w2 m.id e5 s))
      (Stored-initialize_events env subs msgs w1 e3)

-- A batch of messages that has been processed without an error is stored: there is a row of the table
-- of events for each of its messages, so that committing the batch loses none.
pub process_batch-Stored :
    (env : Environment) (h : DeliveryHandler) (context : GoString) (msgs : List EventMessage)
    (w : World) {c : Categories}
    → (process_batch env h context msgs w).0 ≡ ok c
    → All (λ (m : EventMessage). Stored m.id (process_batch env h context msgs w).1.db) msgs
unfolding process_batch
process_batch-Stored env h context [] w good = tt
process_batch-Stored env h context (m ∷ ms) w good =
    unnamed h (process_messages env h context (map (with_max_attempts h) (m ∷ ms)) w).1.db (m ∷ ms)
      (process_messages-Stored env h context (map (with_max_attempts h) (m ∷ ms)) w good)
