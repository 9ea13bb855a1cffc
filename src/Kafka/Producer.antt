-- ===== src/Kafka/Producer.antt =====
-- internal/kafka/producer.go: the messages that the API and the load test hand to the writer
-- (github.com/segmentio/kafka-go), which is outside: `write` is whether a call of `WriteMessages`
-- succeeds, and `encode` is `json.Marshal`.
pub mod RoundTrip
pub mod Batches
use webhook_service.Prelude.{
  ℕ, zero, suc, ◌+◌, ◌*◌, ◌%◌, Bool, true, false, Option, none, some, List, [], ◌∷◌, ◌++◌, GoString,
  lit, is_empty, length, leb, if◌then◌else◌,
}
use webhook_service.Prelude.Int.{ℤ, pos}
use webhook_service.Domain.Event.{Duration}
use webhook_service.Kafka.Message.{EventMessage}
use webhook_service.Kafka.Consumer.{trace_id_header}

pub record ProducerConfig : Type 0 where
  pub brokers : List GoString
  pub topic : GoString
  pub batch_size : ℤ
  pub batch_timeout : Duration
  pub async : Bool

abbrev pub default_producer_config : ProducerConfig
default_producer_config = record {
  brokers = lit "localhost:9092" ∷ [];
  topic = lit "events.pending";
  batch_size = pos 100;
  batch_timeout = pos 10000000;
  async = false;
}

-- `kafka.Message`, as far as the producer fills it.
pub record Outgoing : Type 0 where
  pub key : GoString
  pub value : GoString
  pub headers : List (GoString × GoString)

pub data PublishError : Type 0 where
  marshal_failed write_failed : PublishError

-- What a call returns, nothing for no error, and the messages that it gave to the writer, by calls.
abbrev pub Published : Type 0
Published = Option PublishError × List (List Outgoing)

-- The headers of `Publish`: the trace id of the context, if there is one.
abbrev pub trace_headers : GoString → List (GoString × GoString)
trace_headers trace = if is_empty trace then [] else (trace_id_header, trace) ∷ []

abbrev pub plain_message : (EventMessage → Option GoString) → EventMessage → Option Outgoing
plain_message encode event = elim (encode event) [
  | none ↦ none
  | some value ↦ some (record { key = event.id; value = value; headers = [] })
]

abbrev pub written : (List Outgoing → Bool) → List Outgoing → Published
written write messages = (if write messages then none else some write_failed, messages ∷ [])

abbrev pub publish_encoded :
    (List Outgoing → Bool) → GoString → EventMessage → Option GoString → Published
publish_encoded write trace event none = (some marshal_failed, [])
publish_encoded write trace event (some value) =
    written write (record { key = event.id; value = value; headers = trace_headers trace } ∷ [])

-- `Publish`.
unfoldable pub publish :
    (EventMessage → Option GoString) → (List Outgoing → Bool) → GoString → EventMessage → Published
publish encode write trace event = publish_encoded write trace event (encode event)

-- The loop of `PublishBatch`.
unfoldable pub encode_all :
    (EventMessage → Option GoString) → List EventMessage → Option (List Outgoing)
encode_all encode [] = some []
encode_all encode (event ∷ events) =
    let rest = encode_all encode events in
    elim (plain_message encode event) [
      | none ↦ none
      | some m ↦ elim rest [ none ↦ none | some ms ↦ some (m ∷ ms) ]
    ]

unfoldable pub publish_batch :
    (EventMessage → Option GoString) → (List Outgoing → Bool) → List EventMessage → Published
unfolding encode_all
publish_batch encode write events = elim (encode_all encode events) [
  | none ↦ (some marshal_failed, [])
  | some messages ↦ written write messages
]

-- The event of the load test with index `i`; `show` is `fmt.Sprintf("%d", …)`.
unfoldable pub load_event :
    (ℕ → GoString) → (prefix type : GoString) → (clock : ℕ → ℕ) → ℕ → EventMessage
load_event show prefix type clock i = record {
  id = prefix ++ show (clock i) ++ lit "_" ++ show i;
  type = type;
  source = lit "loadtest";
  payload = lit "{\"test\": true, \"index\": " ++ show i ++ lit "}";
  max_attempts = pos 3;
  attempt = pos 0;
  last_error = lit "";
  next_attempt_at = none;
  trace_id = lit "";
}

abbrev pub prepend : List Outgoing → Published → Published
prepend batch (e, batches) = (e, batch ∷ batches)

-- The end of the loop: the messages that are left.
abbrev pub flush : (List Outgoing → Bool) → List Outgoing → Published
flush write [] = (none, [])
flush write (m ∷ ms) = written write (m ∷ ms)

-- The loop of both load tests, from the index `i` on with `count` events to go and the messages that
-- wait for the writer. The writer is called when 1000 wait.
unfoldable pub produce :
    (EventMessage → Option GoString)
    → (List Outgoing → Bool)
    → (ℕ → EventMessage)
    → (count i : ℕ) → List Outgoing
    → Published
produce encode write event zero i waiting = flush write waiting
produce encode write event (suc count) i waiting = elim (plain_message encode (event i)) [
  | none ↦ (some marshal_failed, [])
  | some m ↦
      let messages = waiting ++ (m ∷ []) in
      elim (leb 1000 (length messages)) [
        | false ↦ produce encode write event count (suc i) messages
        | true ↦ elim (write messages) [
          | false ↦ (some write_failed, messages ∷ [])
          | true ↦ prepend messages (produce encode write event count (suc i) [])
        ]
      ]
]

-- `ProduceEvents`.
unfoldable pub produce_events :
    (ℕ → GoString)
    → (EventMessage → Option GoString)
    → (List Outgoing → Bool)
    → (clock : ℕ → ℕ) → (count : ℕ) → (type : GoString) → Published
unfolding produce load_event
produce_events show encode write clock count type =
    produce encode write (load_event show (lit "evt_loadtest_") type clock) count 0 []

-- `produceWithPrefix`, with at least one type.
unfoldable pub produce_with_prefix :
    (ℕ → GoString)
    → (EventMessage → Option GoString)
    → (List Outgoing → Bool)
    → (clock : ℕ → ℕ) → (count more_types : ℕ) → (prefix : GoString) → Published
unfolding produce load_event
produce_with_prefix show encode write clock count more_types prefix =
    produce encode write
      (λ i.
        load_event show (lit "evt_multi_") (prefix ++ lit "." ++ show (i % suc more_types + 1))
          clock i)
      count 0 []
