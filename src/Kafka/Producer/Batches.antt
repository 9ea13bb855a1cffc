-- ===== src/Kafka/Producer/Batches.antt =====
-- internal/kafka/producer.go: the batches of the load test.
use webhook_service.Prelude.{
  ℕ, zero, suc, ◌≤◌, ◌<◌, ◌≡◌, refl, sym, ap, ◌∙◌, subst, Bool, true, false, Option, none, some,
  List, [], ◌∷◌, ◌++◌, map, All, GoString, length, lit, leb, arith,
}
use mathlib.Core.List.{append-nil}
use webhook_service.Kafka.Message.{EventMessage}
use webhook_service.Kafka.Producer.{
  Outgoing, write_failed, marshal_failed, load_event, produce_events, Published, plain_message,
  prepend, flush, produce,
}
use webhook_service.Kafka.Producer.RoundTrip.{flat}

-- The events with the indexes from `i` on.
abbrev pub events_from : (ℕ → EventMessage) → (count i : ℕ) → List EventMessage
events_from event zero i = []
events_from event (suc count) i = event i ∷ events_from event count (suc i)

-- All messages, once and in order, in batches of 1000 at most.
pub record Batched (messages : List (Option Outgoing)) (batches : List (List Outgoing))
    : Type 0 where
  pub complete : map some (flat batches) ≡ messages
  pub bounded : All (λ b. length b ≤ 1000) batches

length-snoc : {A : Type 0} (xs : List A) (x : A) → length (xs ++ (x ∷ [])) ≡ suc (length xs)
length-snoc [] x = refl
length-snoc (y ∷ ys) x = ap suc (length-snoc ys x)

module _ (encode : EventMessage → Option GoString) (write : List Outgoing → Bool)
    (event : ℕ → EventMessage) where
  -- What the loop owes: the messages that wait, and those of the events to come.
  abbrev owed : List Outgoing → (count i : ℕ) → List (Option Outgoing)
  owed [] count i = map (plain_message encode) (events_from event count i)
  owed (m ∷ ms) count i = some m ∷ owed ms count i

  owed-snoc :
      (ms : List Outgoing) (m : Outgoing) (count i : ℕ)
      → plain_message encode (event i) ≡ some m
      → owed (ms ++ (m ∷ [])) count (suc i) ≡ owed ms (suc count) i
  owed-snoc [] m count i e = ap (λ o. o ∷ owed [] count (suc i)) (sym e)
  owed-snoc (x ∷ ms) m count i e = ap (◌∷◌ (some x)) (owed-snoc ms m count i e)

  owed_all : (ms : List Outgoing) (count i : ℕ) → owed ms count i ≡ map some ms ++ owed [] count i
  owed_all [] count i = refl
  owed_all (m ∷ ms) count i = ap (◌∷◌ (some m)) (owed_all ms count i)

  map-some-append : (xs ys : List Outgoing) → map some (xs ++ ys) ≡ map some xs ++ map some ys
  map-some-append [] ys = refl
  map-some-append (x ∷ xs) ys = ap (◌∷◌ (some x)) (map-some-append xs ys)

  flush-Batched :
      (ms : List Outgoing) (i : ℕ) → length ms ≤ 1000 → Batched (owed ms zero i) (flush write ms).1
  flush-Batched [] i h = record { complete = refl; bounded = tt }
  flush-Batched (m ∷ ms) i h = record {
    complete =
        ap (map some) (append-nil (m ∷ ms))
        ∙ sym (owed_all (m ∷ ms) zero i ∙ append-nil (map some (m ∷ ms)));
    bounded = (h, tt);
  }

  -- The rest of a round: after the call of the writer, with a full batch, and with the new message.
  abbrev handed : Bool → List Outgoing → (count i : ℕ) → Published
  handed false ms count i = (some write_failed, ms ∷ [])
  handed true ms count i = prepend ms (produce encode write event count (suc i) [])

  abbrev filled : Bool → List Outgoing → (count i : ℕ) → Published
  filled false ms count i = produce encode write event count (suc i) ms
  filled true ms count i = handed (write ms) ms count i

  abbrev encoded : Option Outgoing → List Outgoing → (count i : ℕ) → Published
  encoded none ms count i = (some marshal_failed, [])
  encoded (some m) ms count i = filled (leb 1000 (length (ms ++ (m ∷ [])))) (ms ++ (m ∷ [])) count i

  elim-handed :
      (b : Bool) (ms : List Outgoing) (count i : ℕ)
      → elim b [
        | false ↦ (some write_failed, ms ∷ [])
        | true ↦ prepend ms (produce encode write event count (suc i) [])
      ]
        ≡ handed b ms count i
  elim-handed true ms count i = refl
  elim-handed false ms count i = refl

  elim-filled :
      (b : Bool) (ms : List Outgoing) (count i : ℕ)
      → elim b [
        | false ↦ produce encode write event count (suc i) ms
        | true ↦ elim (write ms) [
          | false ↦ (some write_failed, ms ∷ [])
          | true ↦ prepend ms (produce encode write event count (suc i) [])
        ]
      ]
        ≡ filled b ms count i
  elim-filled true ms count i = elim-handed (write ms) ms count i
  elim-filled false ms count i = refl

  elim-encoded :
      (o : Option Outgoing) (ms : List Outgoing) (count i : ℕ)
      → elim o [
        | none ↦ (some marshal_failed, [])
        | some m ↦ elim (leb 1000 (length (ms ++ (m ∷ [])))) [
          | false ↦ produce encode write event count (suc i) (ms ++ (m ∷ []))
          | true ↦ elim (write (ms ++ (m ∷ []))) [
            | false ↦ (some write_failed, (ms ++ (m ∷ [])) ∷ [])
            | true ↦ prepend (ms ++ (m ∷ [])) (produce encode write event count (suc i) [])
          ]
        ]
      ]
        ≡ encoded o ms count i
  elim-encoded none ms count i = refl
  elim-encoded (some m) ms count i =
      elim-filled (leb 1000 (length (ms ++ (m ∷ [])))) (ms ++ (m ∷ [])) count i

  produce-encoded :
      (count i : ℕ) (ms : List Outgoing)
      → produce encode write event (suc count) i ms
        ≡ encoded (plain_message encode (event i)) ms count i
  unfolding produce
  produce-encoded count i ms = elim-encoded (plain_message encode (event i)) ms count i

  -- What is claimed of the rounds to come.
  abbrev Rounds : ℕ → Type 0
  Rounds count =
      (i : ℕ) (ms : List Outgoing)
      → length ms < 1000
      → (produce encode write event count i ms).0 ≡ none
      → Batched (owed ms count i) (produce encode write event count i ms).1

  handed-Batched :
      (b : Bool) (ms : List Outgoing) (count i : ℕ)
      → Rounds count
      → length ms ≤ 1000
      → (handed b ms count i).0 ≡ none
      → Batched (owed ms count (suc i)) (handed b ms count i).1
  handed-Batched false ms count i rounds h good = absurd (cc)
  handed-Batched true ms count i rounds h good =
      let rest = rounds (suc i) [] (omega arith) good in
      record {
        complete =
            map-some-append ms (flat (produce encode write event count (suc i) []).1)
            ∙ ap (λ os. map some ms ++ os) rest.complete
            ∙ sym (owed_all ms count (suc i));
        bounded = (h, rest.bounded);
      }

  filled-Batched :
      (b : Bool) (ms : List Outgoing) (count i : ℕ)
      → Rounds count
      → leb 1000 (length ms) ≡ b
      → length ms ≤ 1000
      → (filled b ms count i).0 ≡ none
      → Batched (owed ms count (suc i)) (filled b ms count i).1
  filled-Batched false ms count i rounds room h good = rounds (suc i) ms (ground (arith, room)) good
  filled-Batched true ms count i rounds room h good =
      handed-Batched (write ms) ms count i rounds h good

  encoded-Batched :
      (o : Option Outgoing) (ms : List Outgoing) (count i : ℕ)
      → Rounds count
      → plain_message encode (event i) ≡ o
      → length ms < 1000
      → (encoded o ms count i).0 ≡ none
      → Batched (owed ms (suc count) i) (encoded o ms count i).1
  encoded-Batched none ms count i rounds e h good = absurd (cc)
  encoded-Batched (some m) ms count i rounds e h good =
      subst (λ os. Batched os (encoded (some m) ms count i).1) (owed-snoc ms m count i e)
        (filled-Batched (leb 1000 (length (ms ++ (m ∷ [])))) (ms ++ (m ∷ [])) count i rounds refl
          (omega (arith, h, length-snoc ms m)) good)

  produce-Batched : (count : ℕ) → Rounds count
  unfolding produce
  produce-Batched zero i ms h good = flush-Batched ms i (omega (arith, h))
  produce-Batched (suc count) i ms h good =
      let same = produce-encoded count i ms in
      subst (λ (r : Published). Batched (owed ms (suc count) i) r.1) (sym same)
        (encoded-Batched (plain_message encode (event i)) ms count i (produce-Batched count) refl h
          (ap (λ (r : Published). r.0) (sym same) ∙ good))

-- A load test that returns no error has handed every event to the writer, once and in order, in batches
-- of 1000 at most.
pub produce_events-Batched :
    (show : ℕ → GoString) (encode : EventMessage → Option GoString) (write : List Outgoing → Bool)
    (clock : ℕ → ℕ) (count : ℕ) (type : GoString)
    → (produce_events show encode write clock count type).0 ≡ none
    → Batched
        (map
          (plain_message encode)
          (events_from (load_event show (lit "evt_loadtest_") type clock) count 0))
        (produce_events show encode write clock count type).1
unfolding produce_events
produce_events-Batched show encode write clock count type good =
    produce-Batched encode write (load_event show (lit "evt_loadtest_") type clock) count 0 []
      (omega arith) good
