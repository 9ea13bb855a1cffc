-- ===== src/Repository/Invariant/Operations.antt =====
-- Every operation of the repositories keeps the invariant, whether it succeeds or fails.
use mathlib.Core.Path.{subst₂}
use webhook_service.Prelude.{
  ◌≡◌, refl, sym, true, Option, none, some, List, [], ◌∷◌, GoString, arith, inl, inr, Option-cases,
  ◌==◌,
}
use webhook_service.Prelude.Int.{ℤ, pos, ltb_ℤ, leb_ℤ}
use webhook_service.Domain.Event.{
  Time, Duration, Err, Event, DeliveryAttempt, claim_lost, not_found, replay_not_eligible,
}
use webhook_service.Domain.Subscription.{Subscription}
use webhook_service.Domain.Delivery.{Delivery, schedule_replay}
use webhook_service.Repository.World.{Database, Environment, Action, ◌>>=◌}
use webhook_service.Repository.World.Preserves.{
  Preserves, Preserves-pure, Preserves-throw, Preserves->>=, Preserves-if, Preserves-require,
  Preserves-time_now, Preserves-query, Preserves-exec, Preserves-exec_total, Preserves-exec_unless,
  Preserves-transaction,
}
use webhook_service.Repository.Reads.{get_deliveries_by_event_id}
use webhook_service.Repository.Initialize.{
  event_row, with_defaults, insert_deliveries, initialize_body, initialize_event_deliveries,
}
use webhook_service.Repository.Claim.{claim_deliveries, claim_event_deliveries}
use webhook_service.Repository.Outcome.{
  next_serial, insert_attempt_row, insert_attempts, normalize_delivery, update_event_projection,
  persist_body, lease_held, persist_claimed_delivery_outcome,
}
use webhook_service.Repository.Replay.{or_not_found, scheduled, replay_body, replay_failed_delivery}
use webhook_service.Repository.Retention.{
  redact_rows, redact_attempt_bodies, delete_terminal_events,
}
use webhook_service.Repository.Subscriptions.{create, delete, update_secret}
use webhook_service.Repository.Invariant.{WellFormed, IsValid}
use webhook_service.Repository.Invariant.Changes.{
  settled, update_outcome-IsValid, claim_rows-IsValid, update_replay-IsValid, schedule_replay_sound,
}
use webhook_service.Repository.Invariant.Inserts.{
  insert_delivery_row-IsValid, insert_event_row-IsValid,
}
use webhook_service.Repository.Invariant.Events.{project_event_row-IsValid, delete_rows-IsValid}

abbrev Keeps : {A : Type 0} → Action A → Type 0
Keeps m = Preserves IsValid m

Keeps-insert_deliveries :
    (env : Environment) (event : Event) (subs : List (Option Subscription))
    → Keeps (insert_deliveries env event subs)
unfolding insert_deliveries
Keeps-insert_deliveries env event [] = Preserves-pure tt
Keeps-insert_deliveries env event (none ∷ subs) = Keeps-insert_deliveries env event subs
Keeps-insert_deliveries env event (some sub ∷ subs) = Preserves->>= (Preserves-time_now env) (λ now.
    Preserves->>=
      (Preserves-exec env _ (λ _ _ db a db' e. insert_delivery_row-IsValid now event sub db db' e))
      (λ _. Keeps-insert_deliveries env event subs))

Keeps-initialize_body :
    (env : Environment) (event : Event) (subs : List (Option Subscription))
    → Keeps (initialize_body env event subs)
unfolding initialize_body get_deliveries_by_event_id
Keeps-initialize_body env event subs = Preserves->>= (Preserves-time_now env) λ now.
    Preserves->>=
      (Preserves-exec_total env _
        (λ _ _ db. insert_event_row-IsValid (event_row now subs (with_defaults now event)) db))
      λ _.
        Preserves->>= (Keeps-insert_deliveries env (with_defaults now event) subs)
          (λ _. Preserves-query env _)

-- `InitializeEventDeliveries`.
pub Keeps-initialize_event_deliveries :
    (env : Environment) (event : Option Event) (subs : List (Option Subscription))
    → Keeps (initialize_event_deliveries env event subs)
unfolding initialize_event_deliveries
Keeps-initialize_event_deliveries env none subs = Preserves-throw _
Keeps-initialize_event_deliveries env (some event) subs =
    Preserves-transaction env _ (λ _. Keeps-initialize_body env event subs)

pub Keeps-claim_deliveries :
    (env : Environment) (owner : GoString) (duration : Duration) (limit : ℤ)
    → Keeps (claim_deliveries env owner duration limit)
unfolding claim_deliveries
Keeps-claim_deliveries env owner duration limit =
    Preserves-exec_unless env (ltb_ℤ limit (pos 0)) _
      (λ now tick db. claim_rows-IsValid now owner duration _ db)

pub Keeps-claim_event_deliveries :
    (env : Environment) (ids : List GoString) (owner : GoString) (duration : Duration) (limit : ℤ)
    → Keeps (claim_event_deliveries env ids owner duration limit)
unfolding claim_event_deliveries
Keeps-claim_event_deliveries env [] owner duration limit = Preserves-pure []
Keeps-claim_event_deliveries env (id ∷ ids) owner duration limit =
    Preserves-if (leb_ℤ limit (pos 0)) (Preserves-pure [])
      (Preserves-exec_total env _ (λ now tick db. claim_rows-IsValid now owner duration _ db))

-- A change of the other tables.
same_tables :
    (db db' : Database)
    → IsValid db
    → db'.events ≡ db.events
    → db'.deliveries ≡ db.deliveries
    → IsValid db'
same_tables db db' h e d = subst₂ WellFormed (sym e) (sym d) h

Keeps-or_not_found : (o : Option Delivery) → Keeps (or_not_found o)
Keeps-or_not_found none = Preserves-throw _
Keeps-or_not_found (some d) = Preserves-pure d

insert_attempt_row-IsValid :
    (a : DeliveryAttempt) (db : Database) (u : Unit {0}) (db' : Database)
    → insert_attempt_row a db ≡ some (u, db')
    → IsValid db
    → IsValid db'
unfolding insert_attempt_row
insert_attempt_row-IsValid a db u db' e h =
    same_tables db db' h (ground (arith, e)) (ground (arith, e))

Keeps-insert_attempts :
    (env : Environment) (tx_now : Time) (d : Delivery) (attempts : List DeliveryAttempt)
    → Keeps (insert_attempts env tx_now d attempts)
unfolding insert_attempts
Keeps-insert_attempts env tx_now d [] = Preserves-pure tt
Keeps-insert_attempts env tx_now d (a ∷ more) =
    Preserves->>= {m = next_serial} (record { keeps = λ _ k. k })
      (λ id.
        Preserves->>= (Preserves-exec env _ (λ _ _ db. insert_attempt_row-IsValid _ db))
          (λ _. Keeps-insert_attempts env tx_now (normalize_delivery d) more))

Keeps-update_event_projection :
    (env : Environment) (tx_now : Time) (event_id : GoString)
    → Keeps (update_event_projection env tx_now event_id)
unfolding update_event_projection get_deliveries_by_event_id
Keeps-update_event_projection env tx_now event_id = Preserves->>= (Preserves-query env _) λ ds.
    Preserves->>= (Preserves-time_now env) λ now.
      Preserves->>=
        (Preserves-exec_total env _ (λ _ _ db. project_event_row-IsValid tx_now event_id _ db))
        (λ n. Preserves-require (n == 1) not_found)

Keeps-persist_body :
    (env : Environment) (tx_now : Time) (owner : GoString) (deadline : Time) (d : Delivery)
    (attempts : List DeliveryAttempt)
    → settled d ≡ true
    → Keeps (persist_body env tx_now owner deadline d attempts)
unfolding persist_body
Keeps-persist_body env tx_now owner deadline d attempts s =
    Preserves->>=
      (Preserves-exec_total env _ (λ _ _ db. update_outcome-IsValid owner deadline d db s))
      λ n. Preserves->>= (Preserves-require (n == 1) claim_lost) λ _.
        Preserves->>= (Keeps-insert_attempts env tx_now d attempts)
          λ _. Keeps-update_event_projection env tx_now d.event_id

-- `PersistClaimedDeliveryOutcome`, of a delivery that is not processing any more.
pub Keeps-persist_claimed_delivery_outcome :
    (env : Environment) (d : Delivery) (attempts : List DeliveryAttempt)
    → settled d ≡ true
    → Keeps (persist_claimed_delivery_outcome env (some d) attempts)
unfolding persist_claimed_delivery_outcome
Keeps-persist_claimed_delivery_outcome env d attempts s = elim (Option-cases (lease_held d)) [
  | inl unleased ↦ rw unleased (Preserves-throw claim_lost)
  | inr ((owner, deadline), e) ↦
      rw e (
        Preserves-transaction env _ (λ now. Keeps-persist_body env now owner deadline d attempts s))
]

-- What runs where `ScheduleReplay` gave no error.
Keeps-scheduled :
    {A : Type 0} {f : Delivery → Action A} (r : Option Err × Delivery)
    → ((d : Delivery) → r ≡ (none, d) → Keeps (f d))
    → Keeps (scheduled r >>= f)
Keeps-scheduled (some e, d) k = Preserves-throw e
Keeps-scheduled (none, d) k = k d refl

Keeps-replay_body :
    (env : Environment) (tx_now : Time) (id : GoString) (at : Time)
    → Keeps (replay_body env tx_now id at)
unfolding replay_body
Keeps-replay_body env tx_now id at = Preserves->>= (Preserves-query env _) λ row.
    Preserves->>= (Keeps-or_not_found row) λ found.
      Keeps-scheduled (schedule_replay at found) λ d e.
        Preserves->>=
          (Preserves-exec_total env _
            (λ _ _ db. update_replay-IsValid id d db (schedule_replay_sound at found d e)))
          λ n. Preserves->>= (Preserves-require (n == 1) replay_not_eligible) λ _.
            Preserves->>= (Keeps-update_event_projection env tx_now d.event_id)
              λ _. Preserves-pure d

-- `ReplayFailedDelivery`.
pub Keeps-replay_failed_delivery :
    (env : Environment) (id : GoString) (at : Time) → Keeps (replay_failed_delivery env id at)
unfolding replay_failed_delivery
Keeps-replay_failed_delivery env id at =
    Preserves-transaction env _ (λ tx_now. Keeps-replay_body env tx_now id at)

-- The two statements of a cleanup.
pub Keeps-redact_attempt_bodies :
    (env : Environment) (before : Time) (limit : ℤ) → Keeps (redact_attempt_bodies env before limit)
unfolding redact_attempt_bodies redact_rows
Keeps-redact_attempt_bodies env before limit =
    Preserves-exec_unless env (ltb_ℤ limit (pos 0)) _ (λ _ _ db h. h)

pub Keeps-delete_terminal_events :
    (env : Environment) (before : Time) (limit : ℤ)
    → Keeps (delete_terminal_events env before limit)
unfolding delete_terminal_events
Keeps-delete_terminal_events env before limit =
    Preserves-exec_unless env (ltb_ℤ limit (pos 0)) _ (λ _ _ db. delete_rows-IsValid _ db)

pub Keeps-create : (env : Environment) (sub : Subscription) → Keeps (create env sub)
unfolding create
Keeps-create env sub =
    Preserves-exec env _
      λ _ _ db u db' e k. same_tables db db' k (ground (arith, e)) (ground (arith, e))

pub Keeps-delete : (env : Environment) (id : GoString) → Keeps (delete env id)
unfolding delete
Keeps-delete env id =
    Preserves->>= (Preserves-exec_total env _ (λ _ _ db h. h))
      λ n. Preserves-if (n == 0) (Preserves-throw not_found) (Preserves-pure tt)

pub Keeps-update_secret :
    (env : Environment) (id secret : GoString) → Keeps (update_secret env id secret)
unfolding update_secret
Keeps-update_secret env id secret =
    Preserves->>= (Preserves-exec_total env _ (λ _ _ db h. h))
      λ n. Preserves-if (n == 0) (Preserves-throw not_found) (Preserves-pure tt)
