-- ===== src/Kafka/Consumer/Commits.antt =====
-- internal/kafka/consumer.go: which messages are committed, and when.
use webhook_service.Prelude.{
  ◌≡◌, inl, inr, refl, sym, ap, ◌∙◌, subst, ◌≢◌, not, Bool, Option, none, some, List, [], ◌∷◌, ◌++◌,
  map, GoString, arith, All, length, select, is_some, Option-cases,
}
use mathlib.Core.List.{append-nil}
use webhook_service.Domain.Event.{Err}
use webhook_service.Repository.World.{World, Result, ok, err, Action}
use webhook_service.Kafka.Message.{EventMessage}
use webhook_service.Kafka.Handler.{Categories}
use webhook_service.Kafka.Consumer.{
  Message, Fetch, timed_out, fetch_error, fetched, collect_batch, process_batch_and_commit,
  consume_turn, consume_loop, commit_if_ok,
}

-- The messages that the fetches delivered, in order.
abbrev pub messages_of : List Fetch → List Message
messages_of [] = []
messages_of (fetched m ∷ fs) = m ∷ messages_of fs
messages_of (timed_out ∷ fs) = messages_of fs
messages_of (fetch_error ∷ fs) = messages_of fs

abbrev pub decodes : (GoString → Option EventMessage) → Message → Bool
decodes decode m = is_some (decode m.value)

abbrev pub alone : Message → List Message
alone m = m ∷ []

-- No fetched message is dropped: those that decode are the batch, in their order and each with one
-- event, and each of the others is committed by a call of its own.
pub collect_batch_lem :
    (decode : GoString → Option EventMessage) (fs : List Fetch)
    → let c = collect_batch decode fs in
      (c.batch ≡ select (decodes decode) (messages_of fs))
      × (length c.events ≡ length c.batch)
      × (c.commits ≡ map alone (select (λ m. not (decodes decode m)) (messages_of fs)))
unfolding collect_batch
collect_batch_lem decode [] = (refl, refl, refl)
collect_batch_lem decode (timed_out ∷ fs) = collect_batch_lem decode fs
collect_batch_lem decode (fetch_error ∷ fs) = collect_batch_lem decode fs
collect_batch_lem decode (fetched m ∷ fs) =
    let (b, e, c) = collect_batch_lem decode fs in
    elim (Option-cases (decode m.value)) [
      | inl bad ↦ ground (arith, bad, b, e, c)
      | inr (event, good) ↦ ground (arith, good, b, e, c)
    ]

-- What a call of `CommitMessages` may hold: one message that cannot be decoded, or the batch of a
-- turn that the handler has processed without an error.
pub data Earned (decode : GoString → Option EventMessage)
    (process : List EventMessage → Action Categories) (call : List Message) : Type 0 where
  undecodable : (m : Message) → call ≡ alone m → decode m.value ≡ none → Earned decode process call
  processed :
      (fs : List Fetch) (w : World) (r : Categories)
      → call ≡ (collect_batch decode fs).batch
      → (process (collect_batch decode fs).events w).0 ≡ ok r
      → Earned decode process call

All-append : {A : Type 0} (P : A → Type 0) (xs ys : List A) → All P xs → All P ys → All P (xs ++ ys)
All-append P [] ys h k = k
All-append P (x ∷ xs) ys h k = (h.0, All-append P xs ys h.1 k)

commits-undecodable :
    (decode : GoString → Option EventMessage) (m : Message) (fs : List Fetch)
    → decode m.value ≡ none
    → (collect_batch decode (fetched m ∷ fs)).commits ≡ alone m ∷ (collect_batch decode fs).commits
unfolding collect_batch
commits-undecodable decode m fs bad = ground arith

commits-decoded :
    (decode : GoString → Option EventMessage) (m : Message) (fs : List Fetch) (event : EventMessage)
    → decode m.value ≡ some event
    → (collect_batch decode (fetched m ∷ fs)).commits ≡ (collect_batch decode fs).commits
unfolding collect_batch
commits-decoded decode m fs event good = ground arith

collect_batch-Earned :
    (decode : GoString → Option EventMessage) (process : List EventMessage → Action Categories)
    (fs : List Fetch)
    → All (Earned decode process) (collect_batch decode fs).commits
unfolding collect_batch
collect_batch-Earned decode process [] = tt
collect_batch-Earned decode process (timed_out ∷ fs) = collect_batch-Earned decode process fs
collect_batch-Earned decode process (fetch_error ∷ fs) = collect_batch-Earned decode process fs
collect_batch-Earned decode process (fetched m ∷ fs) =
    let rest = collect_batch-Earned decode process fs in
    elim (Option-cases (decode m.value)) [
      | inl bad ↦
          subst (All (Earned decode process)) (sym (commits-undecodable decode m fs bad))
            (undecodable m refl bad, rest)
      | inr (event, good) ↦
          subst (All (Earned decode process)) (sym (commits-decoded decode m fs event good)) rest
    ]

committed :
    (decode : GoString → Option EventMessage) (process : List EventMessage → Action Categories)
    (fs : List Fetch) (w : World) (r : Result Categories × World)
    → (process (collect_batch decode fs).events w).0 ≡ r.0
    → All (Earned decode process) (commit_if_ok (collect_batch decode fs).batch r).1
committed decode process fs w (ok c, w') h = (processed fs w c refl h, tt)
committed decode process fs w (err x, w') h = tt

commit_if_ok-Earned :
    (decode : GoString → Option EventMessage) (process : List EventMessage → Action Categories)
    (fs : List Fetch) (w : World) (events : List EventMessage)
    → events ≡ (collect_batch decode fs).events
    → All
        (Earned decode process)
        (process_batch_and_commit process (collect_batch decode fs).batch events w).1
unfolding process_batch_and_commit
commit_if_ok-Earned decode process fs w [] same = tt
commit_if_ok-Earned decode process fs w (e ∷ es) same =
    committed decode process fs w (process (e ∷ es) w) (ap (λ x. (process x w).0) (sym same))

-- Every call of `CommitMessages` is earned: a batch is committed only after the handler has
-- processed it without an error.
pub consume_loop-Earned :
    (decode : GoString → Option EventMessage) (process : List EventMessage → Action Categories)
    (turns : List (List Fetch)) (w : World)
    → All (Earned decode process) (consume_loop decode process turns w).1
unfolding consume_loop
consume_loop-Earned decode process [] w = tt
consume_loop-Earned decode process (fs ∷ turns) w =
    let c = collect_batch decode fs in
    All-append _ _ _
      (All-append _ c.commits _ (collect_batch-Earned decode process fs)
        (commit_if_ok-Earned decode process fs w c.events refl))
      (consume_loop-Earned decode process turns (consume_turn decode process fs w).0)

commit_if_ok-err :
    (messages : List Message) (r : Result Categories × World) {x : Err}
    → r.0 ≡ err x
    → commit_if_ok messages r ≡ (r.1, [])
commit_if_ok-err messages (ok c, w) h = absurd (cc)
commit_if_ok-err messages (err y, w) h = refl

commit_if_ok-ok :
    (messages : List Message) (r : Result Categories × World) {c : Categories}
    → r.0 ≡ ok c
    → commit_if_ok messages r ≡ (r.1, messages ∷ [])
commit_if_ok-ok messages (ok c, w) h = refl
commit_if_ok-ok messages (err y, w) h = absurd (cc)

process_batch_and_commit-err :
    (process : List EventMessage → Action Categories) (messages : List Message)
    (events : List EventMessage) (w : World) {x : Err}
    → events ≢ []
    → (process events w).0 ≡ err x
    → process_batch_and_commit process messages events w ≡ ((process events w).1, [])
unfolding process_batch_and_commit
process_batch_and_commit-err process messages [] w k h = absurd (k refl)
process_batch_and_commit-err process messages (e ∷ es) w k h =
    commit_if_ok-err messages (process (e ∷ es) w) h

process_batch_and_commit-ok :
    (process : List EventMessage → Action Categories) (messages : List Message)
    (events : List EventMessage) (w : World) {c : Categories}
    → events ≢ []
    → (process events w).0 ≡ ok c
    → process_batch_and_commit process messages events w ≡ ((process events w).1, messages ∷ [])
unfolding process_batch_and_commit
process_batch_and_commit-ok process messages [] w k h = absurd (k refl)
process_batch_and_commit-ok process messages (e ∷ es) w k h =
    commit_if_ok-ok messages (process (e ∷ es) w) h

-- A turn whose processing fails commits none of its batch, and the next turn that succeeds commits
-- its own batch all the same: nothing is left of the failed batch, neither to be processed again
-- nor to hold back the commit of the later messages of its partitions.
pub failed_batch_passed_over :
    (decode : GoString → Option EventMessage) (process : List EventMessage → Action Categories)
    (fs gs : List Fetch) (w : World) {e : Err} {r : Categories}
    → (collect_batch decode fs).events ≢ []
    → (collect_batch decode gs).events ≢ []
    → (process (collect_batch decode fs).events w).0 ≡ err e
    → (process (collect_batch decode gs).events (process (collect_batch decode fs).events w).1).0
      ≡ ok r
    → (consume_loop decode process (fs ∷ gs ∷ []) w).1
      ≡ (collect_batch decode fs).commits
        ++ ((collect_batch decode gs).commits ++ ((collect_batch decode gs).batch ∷ []))
unfolding consume_loop
failed_batch_passed_over decode process fs gs w some_f some_g failed good =
    let c = collect_batch decode fs in
    let d = collect_batch decode gs in
    let w1 = (process c.events w).1 in
    let e1 = process_batch_and_commit-err process c.batch c.events w some_f failed in
    let e2 = process_batch_and_commit-ok process d.batch d.events w1 some_g good in
    let calls = λ (x : World × List (List Message)).
      (c.commits ++ x.1)
      ++ ((d.commits ++ (process_batch_and_commit process d.batch d.events x.0).1) ++ []) in
    let last =
      λ (x : World × List (List Message)). (c.commits ++ []) ++ ((d.commits ++ x.1) ++ []) in
    ap calls e1
    ∙ ap last e2
    ∙ rw (append-nil c.commits, append-nil (d.commits ++ (d.batch ∷ []))) refl
