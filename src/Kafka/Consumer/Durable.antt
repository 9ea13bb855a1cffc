-- ===== src/Kafka/Consumer/Durable.antt =====
-- internal/kafka/consumer.go with handler.go: what the consumer has committed is in the store.
use webhook_service.Prelude.{
  ◌≡◌, refl, sym, subst, Option, none, some, List, [], ◌∷◌, ◌++◌, GoString, arith, All,
  Option-cases, inl, inr,
}
use webhook_service.Repository.World.{Database, World, Environment, Result, ok, err, Action}
use webhook_service.Kafka.Message.{EventMessage}
use webhook_service.Kafka.Delivery.{DeliveryHandler}
use webhook_service.Kafka.Handler.{Categories, process_batch}
use webhook_service.Kafka.Handler.Stored.{Stored}
use webhook_service.Kafka.Handler.Batch.{process_batch-Stored}
use webhook_service.Kafka.Handler.Remains.{Remains-process_batch}
use webhook_service.Kafka.Consumer.{
  Message, Fetch, timed_out, fetch_error, fetched, with_trace, collect_batch, commit_if_ok,
  process_batch_and_commit, consume_loop,
}

id-with_trace :
    (headers : List (GoString × GoString)) (event : EventMessage)
    → (with_trace headers event).id ≡ event.id
unfolding with_trace
id-with_trace [] event = refl
id-with_trace ((key, value) ∷ headers) event = ground (arith, id-with_trace headers event)

pub All-append :
    {A : Type 0} (P : A → Type 0) (xs ys : List A) → All P xs → All P ys → All P (xs ++ ys)
All-append P [] ys h k = k
All-append P (x ∷ xs) ys h k = (h.0, All-append P xs ys h.1 k)

pub All-weaken :
    {A : Type 0} {P Q : A → Type 0} (xs : List A) → ((x : A) → P x → Q x) → All P xs → All Q xs
All-weaken [] f h = tt
All-weaken (x ∷ xs) f h = (f x h.0, All-weaken xs f h.1)

module _ (decode : GoString → Option EventMessage) where
  -- The event of the message, if it can be decoded, has a row.
  abbrev pub Kept : Database → Message → Type 0
  Kept db m = (event : EventMessage) → decode m.value ≡ some event → Stored event.id db

  -- What was kept by one state is kept by a later one.
  abbrev pub Later : Database → Database → Type 0
  Later db db' = (id : GoString) → Stored id db → Stored id db'

  pub Kept-Later : (db db' : Database) → Later db db' → (m : Message) → Kept db m → Kept db' m
  Kept-Later db db' later m kept event e = later event.id (kept event e)

  pub collected-fetched :
      (m : Message) (fs : List Fetch) (event : EventMessage)
      → decode m.value ≡ some event
      → let c = collect_batch decode (fetched m ∷ fs) in
        let d = collect_batch decode fs in
        (c.batch ≡ m ∷ d.batch)
        × (c.events ≡ with_trace m.headers event ∷ d.events)
        × (c.commits ≡ d.commits)
  unfolding collect_batch
  collected-fetched m fs event e = ground (arith, e)

  pub collected-dropped :
      (m : Message) (fs : List Fetch)
      → decode m.value ≡ none
      → let c = collect_batch decode (fetched m ∷ fs) in
        let d = collect_batch decode fs in
        (c.batch ≡ d.batch) × (c.events ≡ d.events) × (c.commits ≡ (m ∷ []) ∷ d.commits)
  unfolding collect_batch
  collected-dropped m fs e = ground (arith, e)

  pub Kept-undecodable : (db : Database) (m : Message) → decode m.value ≡ none → Kept db m
  Kept-undecodable db m bad event e = absurd (cc (bad, e))

  pub Kept-decoded :
      (db : Database) (m : Message) (event : EventMessage)
      → decode m.value ≡ some event
      → Stored (with_trace m.headers event).id db
      → Kept db m
  Kept-decoded db m event e s other f =
      let same : event ≡ other = cc (e, f) in
      subst (λ (x : EventMessage). Stored x.id db) same
        (subst (λ i. Stored i db) (id-with_trace m.headers event) s)

  commits-Kept :
      (db : Database) (fs : List Fetch) → All (All (Kept db)) (collect_batch decode fs).commits
  unfolding collect_batch
  commits-Kept db [] = tt
  commits-Kept db (timed_out ∷ fs) = commits-Kept db fs
  commits-Kept db (fetch_error ∷ fs) = commits-Kept db fs
  commits-Kept db (fetched m ∷ fs) = elim (Option-cases (decode m.value)) [
    | inl bad ↦
        subst (All (All (Kept db))) (sym (collected-dropped m fs bad).2)
          ((Kept-undecodable db m bad, tt), commits-Kept db fs)
    | inr (event, good) ↦
        subst (All (All (Kept db))) (sym (collected-fetched m fs event good).2) (commits-Kept db fs)
  ]

  batch-Kept :
      (db : Database) (fs : List Fetch)
      → All (λ (e : EventMessage). Stored e.id db) (collect_batch decode fs).events
      → All (Kept db) (collect_batch decode fs).batch
  unfolding collect_batch
  batch-Kept db [] stored = tt
  batch-Kept db (timed_out ∷ fs) stored = batch-Kept db fs stored
  batch-Kept db (fetch_error ∷ fs) stored = batch-Kept db fs stored
  batch-Kept db (fetched m ∷ fs) stored = elim (Option-cases (decode m.value)) [
    | inl bad ↦
        let (b, e, c) = collected-dropped m fs bad in
        subst (All (Kept db)) (sym b)
          (batch-Kept db fs (subst (All (λ (x : EventMessage). Stored x.id db)) e stored))
    | inr (event, good) ↦
        let (b, e, c) = collected-fetched m fs event good in
        let both = subst (All (λ (x : EventMessage). Stored x.id db)) e stored in
        subst (All (Kept db)) (sym b) (Kept-decoded db m event good both.0, batch-Kept db fs both.1)
  ]

  module _ (env : Environment) (h : DeliveryHandler) (context : GoString) where
    abbrev pub process : List EventMessage → Action Categories
    process = process_batch env h context

    committed-Kept :
        (fs : List Fetch) (r : Result Categories × World)
        → ((c : Categories)
            → r.0 ≡ ok c
            → All (λ (e : EventMessage). Stored e.id r.1.db) (collect_batch decode fs).events)
        → All (All (Kept r.1.db)) (commit_if_ok (collect_batch decode fs).batch r).1
    committed-Kept fs (ok c, w) stored = (batch-Kept w.db fs (stored c refl), tt)
    committed-Kept fs (err e, w) stored = tt

    pub commit_if_ok-world :
        (ms : List Message) (r : Result Categories × World) → (commit_if_ok ms r).0 ≡ r.1
    commit_if_ok-world ms (ok c, w) = refl
    commit_if_ok-world ms (err e, w) = refl

    abbrev pub after : List Message → List EventMessage → World → World
    after ms events w = (process_batch_and_commit process ms events w).0

    batch-Later :
        (ms : List Message) (events : List EventMessage) (w : World)
        → Later w.db (after ms events w).db
    unfolding process_batch_and_commit
    batch-Later ms [] w id s = s
    batch-Later ms (e ∷ es) w id s =
        rw (commit_if_ok-world ms (process (e ∷ es) w))
          ((Remains-process_batch id env h context (e ∷ es)).keeps w s)

    batch_and_commit-Kept :
        (fs : List Fetch) (events : List EventMessage) (w : World)
        → events ≡ (collect_batch decode fs).events
        → let r = process_batch_and_commit process (collect_batch decode fs).batch events w in
          All (All (Kept r.0.db)) r.1
    unfolding process_batch_and_commit
    batch_and_commit-Kept fs [] w same = tt
    batch_and_commit-Kept fs (e ∷ es) w same =
        let r = process (e ∷ es) w in
        subst
          (λ (x : World). All (All (Kept x.db)) (commit_if_ok (collect_batch decode fs).batch r).1)
          (sym (commit_if_ok-world (collect_batch decode fs).batch r))
          (committed-Kept fs r λ c good.
            subst (All (λ (x : EventMessage). Stored x.id r.1.db)) same
              (process_batch-Stored env h context (e ∷ es) w good))

    pub loop-Later :
        (turns : List (List Fetch)) (w : World)
        → Later w.db (consume_loop decode process turns w).0.db
    unfolding consume_loop
    loop-Later [] w id s = s
    loop-Later (fs ∷ turns) w id s =
        let c = collect_batch decode fs in
        loop-Later turns (after c.batch c.events w) id (batch-Later c.batch c.events w id s)

    -- While nothing but the loop changes the tables: each message that it has handed to
    -- `CommitMessages` either cannot be decoded, or there is a row of the table of events for its event
    -- when the loop ends, also after batches that failed.
    pub consume_loop-Kept :
        (turns : List (List Fetch)) (w : World)
        → All
            (All (Kept (consume_loop decode process turns w).0.db))
            (consume_loop decode process turns w).1
    unfolding consume_loop
    consume_loop-Kept [] w = tt
    consume_loop-Kept (fs ∷ turns) w =
        let c = collect_batch decode fs in
        let w1 = after c.batch c.events w in
        let last = (consume_loop decode process turns w1).0.db in
        All-append (All (Kept last)) _ _
          (All-append (All (Kept last)) c.commits _ (commits-Kept last fs) (
            All-weaken (process_batch_and_commit process c.batch c.events w).1
              (λ ms kept. All-weaken ms (Kept-Later w1.db last (loop-Later turns w1)) kept)
              (batch_and_commit-Kept fs c.events w refl)))
          (consume_loop-Kept turns w1)
