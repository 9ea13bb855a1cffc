-- ===== src/Kafka/Handler/Remains.antt =====
-- internal/kafka/handler.go: no event that is stored is lost by the handling of a batch, however it ends.
use webhook_service.Prelude.{
  ℕ, zero, suc, ◌≡◌, sym, subst, Option, none, some, List, [], ◌∷◌, map, GoString, arith, ◌==◌,
}
use webhook_service.Prelude.Int.{pos, leb_ℤ}
use webhook_service.Domain.Event.{Time, Event, DeliveryAttempt, claim_lost, not_found}
use webhook_service.Domain.Subscription.{Subscription}
use webhook_service.Domain.Delivery.{Delivery}
use webhook_service.Repository.World.{Database, Environment}
use webhook_service.Repository.World.Preserves.{
  Preserves, Preserves-pure, Preserves-throw, Preserves->>=, Preserves-if, Preserves-require,
  Preserves-time_now, Preserves-query, Preserves-exec, Preserves-exec_total, Preserves-transaction,
}
use webhook_service.Repository.Reads.{get_deliveries_by_event_id}
use webhook_service.Repository.Initialize.{
  event_row, with_defaults, insert_delivery_row, insert_deliveries, initialize_body,
  initialize_event_deliveries,
}
use webhook_service.Repository.Claim.{claim_event_deliveries, claim_rows}
use webhook_service.Repository.Outcome.{
  next_serial, insert_attempt_row, insert_attempts, normalize_delivery, update_outcome,
  update_event_projection, persist_body, persist_leased, lease_held,
  persist_claimed_delivery_outcome,
}
use webhook_service.Repository.Subscriptions.{SubscriptionMap, get_by_event_types}
use webhook_service.Kafka.Message.{EventMessage}
use webhook_service.Kafka.Delivery.{DeliveryHandler, DeliveryResult, deliver_delivery}
use webhook_service.Kafka.Delivery.Report.{deliver_delivery_lem}
use webhook_service.Kafka.Handler.{
  Traces, trace_of, file, event_types, with_max_attempts, apply_delivery_result, process_delivery,
  process_deliveries, initialize_events, claim_and_process, categorize_messages, process_messages,
  process_batch,
}
use webhook_service.Kafka.Handler.Applied.{apply_delivery_result_lem}
use webhook_service.Kafka.Handler.Stored.{Stored, Stored-project_event_row, kept-insert_event_row}

insert_delivery_row-events :
    (d : Delivery) (db : Database) (u : Unit {0}) (db' : Database)
    → insert_delivery_row d db ≡ some (u, db')
    → db'.events ≡ db.events
unfolding insert_delivery_row
insert_delivery_row-events d db u db' e = ground (arith, e)

insert_attempt_row-events :
    (a : DeliveryAttempt) (db : Database) (u : Unit {0}) (db' : Database)
    → insert_attempt_row a db ≡ some (u, db')
    → db'.events ≡ db.events
unfolding insert_attempt_row
insert_attempt_row-events a db u db' e = ground (arith, e)

module _ (id : GoString) where
  same_events : (db db' : Database) → db'.events ≡ db.events → Stored id db → Stored id db'
  same_events db db' e s = rw e s

  Remains-insert_deliveries :
      (env : Environment) (event : Event) (subs : List (Option Subscription))
      → Preserves (Stored id) (insert_deliveries env event subs)
  unfolding insert_deliveries
  Remains-insert_deliveries env event [] = Preserves-pure tt
  Remains-insert_deliveries env event (none ∷ subs) = Remains-insert_deliveries env event subs
  Remains-insert_deliveries env event (some sub ∷ subs) =
      Preserves->>= (Preserves-time_now env) λ now.
        Preserves->>=
          (Preserves-exec env _
            (λ _ _ db u db' e. same_events db db' (insert_delivery_row-events _ db u db' e)))
          λ _. Remains-insert_deliveries env event subs

  Remains-initialize_event_deliveries :
      (env : Environment) (event : Event) (subs : List (Option Subscription))
      → Preserves (Stored id) (initialize_event_deliveries env (some event) subs)
  unfolding initialize_event_deliveries initialize_body get_deliveries_by_event_id
  Remains-initialize_event_deliveries env event subs = Preserves-transaction env _ λ tx.
      Preserves->>= (Preserves-time_now env) λ now.
        Preserves->>=
          (Preserves-exec_total env _
            (λ _ _ db. kept-insert_event_row (event_row now subs (with_defaults now event)) db id))
          λ _.
            Preserves->>= (Remains-insert_deliveries env (with_defaults now event) subs)
              (λ _. Preserves-query env _)

  Remains-initialize_events :
      (env : Environment) (subs : SubscriptionMap) (msgs : List EventMessage)
      → Preserves (Stored id) (initialize_events env subs msgs)
  unfolding initialize_events
  Remains-initialize_events env subs [] = Preserves-pure 0
  Remains-initialize_events env subs (msg ∷ msgs) = Preserves->>= (Preserves-time_now env) λ now.
      Preserves->>= (Remains-initialize_event_deliveries env _ _)
        λ rows. Preserves->>= (Remains-initialize_events env subs msgs) λ n. Preserves-pure _

  Remains-claim_event_deliveries :
      (env : Environment) (ids : List GoString) (h : DeliveryHandler) (n : ℕ)
      → Preserves
          (Stored id)
          (claim_event_deliveries env ids h.instance_id h.lease_duration (pos n))
  unfolding claim_event_deliveries claim_rows
  Remains-claim_event_deliveries env [] h n = Preserves-pure []
  Remains-claim_event_deliveries env (i ∷ ids) h n =
      Preserves-if (leb_ℤ (pos n) (pos 0)) (Preserves-pure [])
        (Preserves-exec_total env _ (λ now tick db s. s))

  Remains-insert_attempts :
      (env : Environment) (tx_now : Time) (d : Delivery) (attempts : List DeliveryAttempt)
      → Preserves (Stored id) (insert_attempts env tx_now d attempts)
  unfolding insert_attempts
  Remains-insert_attempts env tx_now d [] = Preserves-pure tt
  Remains-insert_attempts env tx_now d (a ∷ more) =
      Preserves->>= {m = next_serial} (record { keeps = λ _ k. k })
        λ serial.
          Preserves->>=
            (Preserves-exec env _
              (λ _ _ db u db' e. same_events db db' (insert_attempt_row-events _ db u db' e)))
            λ _. Remains-insert_attempts env tx_now (normalize_delivery d) more

  Remains-update_event_projection :
      (env : Environment) (tx_now : Time) (event_id : GoString)
      → Preserves (Stored id) (update_event_projection env tx_now event_id)
  unfolding update_event_projection get_deliveries_by_event_id
  Remains-update_event_projection env tx_now event_id = Preserves->>= (Preserves-query env _) λ ds.
      Preserves->>= (Preserves-time_now env) λ now.
        Preserves->>=
          (Preserves-exec_total env _ (λ _ _ db. Stored-project_event_row id tx_now event_id _ db))
          (λ n. Preserves-require (n == 1) not_found)

  Remains-persist_body :
      (env : Environment) (tx_now : Time) (owner : GoString) (deadline : Time) (d : Delivery)
      (attempts : List DeliveryAttempt)
      → Preserves (Stored id) (persist_body env tx_now owner deadline d attempts)
  unfolding persist_body update_outcome
  Remains-persist_body env tx_now owner deadline d attempts =
      Preserves->>= (Preserves-exec_total env _ (λ _ _ db s. s)) λ n.
        Preserves->>= (Preserves-require (n == 1) claim_lost) λ _.
          Preserves->>= (Remains-insert_attempts env tx_now d attempts)
            λ _. Remains-update_event_projection env tx_now d.event_id

  Remains-persist_leased :
      (env : Environment) (d : Delivery) (attempts : List DeliveryAttempt)
      (held : Option (GoString × Time))
      → Preserves (Stored id) (persist_leased env d attempts held)
  Remains-persist_leased env d attempts none = Preserves-throw claim_lost
  Remains-persist_leased env d attempts (some (owner, deadline)) =
      Preserves-transaction env _ (λ now. Remains-persist_body env now owner deadline d attempts)

  Remains-deliver_delivery :
      (env : Environment) (h : DeliveryHandler) (trace : GoString) (d : Delivery)
      → Preserves (Stored id) (deliver_delivery env h trace d)
  Remains-deliver_delivery env h trace d = record {
    keeps = λ w s.
        let (r, good, held, same) = deliver_delivery_lem env h trace d w in
        subst (Stored id) (sym same) s;
  }

  Remains-apply_delivery_result :
      (env : Environment) (h : DeliveryHandler) (d : Delivery) (r : DeliveryResult)
      → Preserves (Stored id) (apply_delivery_result env h d r)
  Remains-apply_delivery_result env h d r = record {
    keeps = λ w s.
        let (d', good, applied, same) = apply_delivery_result_lem env h d r w in
        subst (Stored id) (sym same) s;
  }

  Remains-process_delivery :
      (env : Environment) (h : DeliveryHandler) (traces : Traces) (d : Delivery)
      → Preserves (Stored id) (process_delivery env h traces d)
  unfolding process_delivery persist_claimed_delivery_outcome
  Remains-process_delivery env h traces d =
      Preserves->>= (Remains-deliver_delivery env h (trace_of traces d.event_id) d) λ r.
        Preserves->>= (Remains-apply_delivery_result env h d r) λ d'.
          Preserves->>= (Remains-persist_leased env d' r.attempts (lease_held d'))
            λ _. Preserves-pure d'

  Remains-process_deliveries :
      (env : Environment) (h : DeliveryHandler) (traces : Traces) (ds : List (Option Delivery))
      → Preserves (Stored id) (process_deliveries env h traces ds)
  unfolding process_deliveries
  Remains-process_deliveries env h traces [] = Preserves-pure _
  Remains-process_deliveries env h traces (none ∷ ds) = Remains-process_deliveries env h traces ds
  Remains-process_deliveries env h traces (some d ∷ ds) =
      Preserves->>= (Remains-process_delivery env h traces d) λ d'.
        Preserves->>= (Remains-process_deliveries env h traces ds) λ p. Preserves-pure (file d' p)

  Remains-claim_and_process :
      (env : Environment) (h : DeliveryHandler) (traces : Traces) (ids : List GoString) (total : ℕ)
      → Preserves (Stored id) (claim_and_process env h traces ids total)
  unfolding claim_and_process
  Remains-claim_and_process env h traces ids zero = Preserves-pure tt
  Remains-claim_and_process env h traces ids (suc n) =
      Preserves->>= (Remains-claim_event_deliveries env ids h (suc n))
        λ claimed. Preserves->>= (Remains-process_deliveries env h traces _) λ _. Preserves-pure tt

  Remains-categorize_messages :
      (env : Environment) (batch msgs : List EventMessage)
      → Preserves (Stored id) (categorize_messages env batch msgs)
  unfolding categorize_messages get_deliveries_by_event_id
  Remains-categorize_messages env batch [] = Preserves-pure _
  Remains-categorize_messages env batch (msg ∷ msgs) = Preserves->>= (Preserves-query env _) λ rows.
      Preserves->>= (Preserves-time_now env)
        λ now. Preserves->>= (Remains-categorize_messages env batch msgs) λ c. Preserves-pure _

  Remains-get_by_event_types :
      (env : Environment) (types : List GoString)
      → Preserves (Stored id) (get_by_event_types env types)
  unfolding get_by_event_types
  Remains-get_by_event_types env [] = Preserves-pure []
  Remains-get_by_event_types env (t ∷ types) =
      Preserves->>= (Preserves-query env _) λ subs. Preserves-pure _

  -- A stored event is still stored after a batch, whether the batch fails or not.
  pub Remains-process_batch :
      (env : Environment) (h : DeliveryHandler) (context : GoString) (msgs : List EventMessage)
      → Preserves (Stored id) (process_batch env h context msgs)
  unfolding process_batch process_messages
  Remains-process_batch env h context [] = Preserves-pure _
  Remains-process_batch env h context (m ∷ ms) =
      let msgs = map (with_max_attempts h) (m ∷ ms) in
      Preserves->>= (Remains-get_by_event_types env (event_types msgs)) λ subs.
        Preserves->>= (Remains-initialize_events env subs msgs) λ total.
          Preserves->>= (Remains-claim_and_process env h _ _ total)
            λ _. Remains-categorize_messages env msgs msgs
