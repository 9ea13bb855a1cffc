-- ===== src/Kafka/Consumer/Covered.antt =====
-- internal/kafka/consumer.go with handler.go: what becomes of every message that the consumer fetches.
use webhook_service.Prelude.{
  ◌≡◌, ◌⊎◌, inl, inr, refl, sym, subst, Option, List, [], ◌∷◌, ◌++◌, GoString, All, Option-cases,
}
use webhook_service.Repository.World.{Database, World, Environment, Result, ok, err}
use webhook_service.Repository.Rows.{In}
use webhook_service.Kafka.Message.{EventMessage}
use webhook_service.Kafka.Delivery.{DeliveryHandler}
use webhook_service.Kafka.Handler.{Categories}
use webhook_service.Kafka.Handler.Stored.{Stored}
use webhook_service.Kafka.Handler.Batch.{process_batch-Stored}
use webhook_service.Kafka.Consumer.{
  Message, Fetch, timed_out, fetch_error, fetched, collect_batch, process_batch_and_commit,
  consume_loop,
}
use webhook_service.Kafka.Consumer.Durable.{
  Kept, Kept-Later, collected-fetched, collected-dropped, Kept-undecodable, Kept-decoded, process,
  after, commit_if_ok-world, loop-Later, All-append, All-weaken, consume_loop-Kept,
}

-- The messages that a turn has fetched.
abbrev pub messages_of : List Fetch → List Message
messages_of [] = []
messages_of (fetched m ∷ fs) = m ∷ messages_of fs
messages_of (_ ∷ fs) = messages_of fs

abbrev pub all_fetched : List (List Fetch) → List Message
all_fetched [] = []
all_fetched (fs ∷ turns) = messages_of fs ++ all_fetched turns

In-left : {A : Type 0} (x : A) (xs ys : List A) → In x xs → In x (xs ++ ys)
In-left x [] ys i = absurd i
In-left x (y ∷ xs) ys (inl e) = inl e
In-left x (y ∷ xs) ys (inr i) = inr (In-left x xs ys i)

In-right : {A : Type 0} (x : A) (xs ys : List A) → In x ys → In x (xs ++ ys)
In-right x [] ys i = i
In-right x (y ∷ xs) ys i = inr (In-right x xs ys i)

-- The batch, where it was not processed.
abbrev behind : Result Categories → List Message → List Message
behind (ok _) batch = []
behind (err _) batch = batch

module _ (decode : GoString → Option EventMessage) where
  fetched-Kept :
      (db : Database) (fs : List Fetch)
      → All (λ (e : EventMessage). Stored e.id db) (collect_batch decode fs).events
      → All (Kept decode db) (messages_of fs)
  unfolding collect_batch
  fetched-Kept db [] stored = tt
  fetched-Kept db (timed_out ∷ fs) stored = fetched-Kept db fs stored
  fetched-Kept db (fetch_error ∷ fs) stored = fetched-Kept db fs stored
  fetched-Kept db (fetched m ∷ fs) stored = elim (Option-cases (decode m.value)) [
    | inl bad ↦
        let (b, e, c) = collected-dropped decode m fs bad in
        (
          Kept-undecodable decode db m bad,
          fetched-Kept db fs (subst (All (λ (x : EventMessage). Stored x.id db)) e stored),
        )
    | inr (event, good) ↦
        let (b, e, c) = collected-fetched decode m fs event good in
        let both = subst (All (λ (x : EventMessage). Stored x.id db)) e stored in
        (Kept-decoded decode db m event good both.0, fetched-Kept db fs both.1)
  ]

  -- A message is kept, or stands in a list of those that are not.
  abbrev pub KeptOr : Database → List Message → Message → Type 0
  KeptOr db left m = Kept decode db m ⊎ In m left

  fetched-collected :
      (db : Database) (fs : List Fetch)
      → All (KeptOr db (collect_batch decode fs).batch) (messages_of fs)
  unfolding collect_batch
  fetched-collected db [] = tt
  fetched-collected db (timed_out ∷ fs) = fetched-collected db fs
  fetched-collected db (fetch_error ∷ fs) = fetched-collected db fs
  fetched-collected db (fetched m ∷ fs) = elim (Option-cases (decode m.value)) [
    | inl bad ↦
        let (b, e, c) = collected-dropped decode m fs bad in
        (
          inl (Kept-undecodable decode db m bad),
          subst (λ ms. All (KeptOr db ms) (messages_of fs)) (sym b) (fetched-collected db fs),
        )
    | inr (event, good) ↦
        let (b, e, c) = collected-fetched decode m fs event good in
        subst (λ ms. All (KeptOr db ms) (m ∷ messages_of fs)) (sym b)
          (
            inr (inl refl),
            All-weaken (messages_of fs) (λ x k. elim k [ inl y ↦ inl y | inr i ↦ inr (inr i) ])
                (fetched-collected db fs),
          )
  ]

  module _ (env : Environment) (h : DeliveryHandler) (context : GoString) where
    -- The messages of the batches whose processing has failed.
    abbrev pub left_behind : List (List Fetch) → World → List Message
    left_behind [] w = []
    left_behind (fs ∷ turns) w =
        let c = collect_batch decode fs in
        behind (process decode env h context c.events w).0 c.batch
        ++ left_behind turns (after decode env h context c.batch c.events w)

    result-KeptOr :
        (fs : List Fetch) (r : Result Categories × World)
        → ((c : Categories)
            → r.0 ≡ ok c
            → All (λ (e : EventMessage). Stored e.id r.1.db) (collect_batch decode fs).events)
        → All (KeptOr r.1.db (behind r.0 (collect_batch decode fs).batch)) (messages_of fs)
    result-KeptOr fs (ok c, w) stored =
        All-weaken (messages_of fs) (λ m k. inl k) (fetched-Kept w.db fs (stored c refl))
    result-KeptOr fs (err e, w) stored = fetched-collected w.db fs

    turn-KeptOr :
        (fs : List Fetch) (events : List EventMessage) (w : World)
        → events ≡ (collect_batch decode fs).events
        → let batch = (collect_batch decode fs).batch in
          All
            (KeptOr
              (after decode env h context batch events w).db
              (behind (process decode env h context events w).0 batch))
            (messages_of fs)
    unfolding process_batch_and_commit
    turn-KeptOr fs [] w same =
        All-weaken (messages_of fs) (λ m k. inl k)
          (fetched-Kept w.db fs (subst (All (λ (x : EventMessage). Stored x.id w.db)) same tt))
    turn-KeptOr fs (e ∷ es) w same =
        let batch = (collect_batch decode fs).batch in
        let r = process decode env h context (e ∷ es) w in
        subst (λ (x : World). All (KeptOr x.db (behind r.0 batch)) (messages_of fs))
          (sym (commit_if_ok-world decode env h context batch r))
          (result-KeptOr fs r λ c good.
            subst (All (λ (x : EventMessage). Stored x.id r.1.db)) same
              (process_batch-Stored env h context (e ∷ es) w good))

    fetched-KeptOr :
        (turns : List (List Fetch)) (w : World)
        → All
            (KeptOr
              (consume_loop decode (process decode env h context) turns w).0.db
              (left_behind turns w))
            (all_fetched turns)
    unfolding consume_loop
    fetched-KeptOr [] w = tt
    fetched-KeptOr (fs ∷ turns) w =
        let c = collect_batch decode fs in
        let w1 = after decode env h context c.batch c.events w in
        let last = (consume_loop decode (process decode env h context) turns w1).0.db in
        let first = behind (process decode env h context c.events w).0 c.batch in
        let later = left_behind turns w1 in
        All-append (KeptOr last (first ++ later)) (messages_of fs) (all_fetched turns)
          (All-weaken (messages_of fs)
            (λ m k. elim k [
              | inl kept ↦
                  inl
                    (Kept-Later decode w1.db last (loop-Later decode env h context turns w1) m kept)
              | inr i ↦ inr (In-left m first later i)
            ])
            (turn-KeptOr fs c.events w refl))
          (All-weaken (all_fetched turns)
            (λ m k. elim k [ inl kept ↦ inl kept | inr i ↦ inr (In-right m first later i) ])
            (fetched-KeptOr turns w1))

    -- While nothing but the loop changes the tables. Each message that it has handed to
    -- `CommitMessages` is kept when the loop ends: it cannot be decoded, or there is a row of the table
    -- of events for its event. And each message that it has fetched is kept, or is one of a batch whose
    -- processing failed. As a commit also covers the lower offsets of its partition: of the decodable
    -- messages that were fetched, only those of failed batches can be committed and not stored.
    pub consume_loop-Covered :
        (turns : List (List Fetch)) (w : World)
        → let r = consume_loop decode (process decode env h context) turns w in
          All (All (Kept decode r.0.db)) r.1
          × All (KeptOr r.0.db (left_behind turns w)) (all_fetched turns)
    consume_loop-Covered turns w =
        (consume_loop-Kept decode env h context turns w, fetched-KeptOr turns w)
