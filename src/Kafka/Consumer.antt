-- ===== src/Kafka/Consumer.antt =====
-- internal/kafka/consumer.go: the loop that collects a batch, has it processed and commits it. The
-- reader (github.com/segmentio/kafka-go) is outside: `Fetch` is what one call of `FetchMessage`
-- delivers, and `decode` is `json.Unmarshal` of the message's value.
pub mod Commits
pub mod Loop
pub mod Turns
pub mod Ends
pub mod Durable
pub mod Covered
use webhook_service.Prelude.{
  ℕ, Bool, true, false, Option, none, some, List, [], ◌∷◌, ◌++◌, map, GoString, lit, str_eq,
  if◌then◌else◌,
}
use webhook_service.Prelude.Int.{pos}
use webhook_service.Domain.Event.{Duration}
use webhook_service.Repository.World.{World, Result, ok, err, Action}
use webhook_service.Kafka.Message.{EventMessage}
use webhook_service.Kafka.Handler.{Categories}

pub record ConsumerConfig : Type 0 where
  pub brokers : List GoString
  pub topic : GoString
  pub group_id : GoString
  pub instance_id : GoString
  pub batch_timeout : Duration
  pub commit_timeout : Duration

abbrev pub default_consumer_config : ConsumerConfig
default_consumer_config = record {
  brokers = [];
  topic = lit "";
  group_id = lit "";
  instance_id = lit "";
  batch_timeout = pos 100000000;
  commit_timeout = pos 5000000000;
}

pub record Message : Type 0 where
  pub partition : ℕ
  pub offset : ℕ
  pub value : GoString
  pub headers : List (GoString × GoString)

-- One call of `FetchMessage` before the deadline of the batch.
pub data Fetch : Type 0 where
  timed_out fetch_error : Fetch
  fetched : Message → Fetch

abbrev pub trace_id_header : GoString
trace_id_header = lit "X-Trace-ID"

-- The loop over the headers stops at the first that has the key.
unfoldable pub with_trace : List (GoString × GoString) → EventMessage → EventMessage
with_trace [] event = event
with_trace ((key, value) ∷ headers) event =
    let rest = with_trace headers event in
    if str_eq key trace_id_header then record event { trace_id = value } else rest

-- What a batch holds, and the calls of `CommitMessages` so far; an error of a commit is only logged.
pub record Collected : Type 0 where
  pub batch : List Message
  pub events : List EventMessage
  pub commits : List (List Message)

-- One message: kept with its event, or committed alone where it cannot be decoded.
unfoldable pub collect_message : (GoString → Option EventMessage) → Message → Collected → Collected
collect_message decode m c = elim (decode m.value) [
  | none ↦ record c { commits = (m ∷ []) ∷ c.commits }
  | some event ↦ record c { batch = m ∷ c.batch; events = with_trace m.headers event ∷ c.events }
]

-- The fetches of one batch, until its deadline or the shutdown.
unfoldable pub collect_batch : (GoString → Option EventMessage) → List Fetch → Collected
unfolding collect_message with_trace
collect_batch decode [] = record { batch = []; events = []; commits = [] }
collect_batch decode (timed_out ∷ fs) = collect_batch decode fs
collect_batch decode (fetch_error ∷ fs) = collect_batch decode fs
collect_batch decode (fetched m ∷ fs) = collect_message decode m (collect_batch decode fs)

abbrev pub commit_if_ok : List Message → Result Categories × World → World × List (List Message)
commit_if_ok messages (ok _, w) = (w, messages ∷ [])
commit_if_ok messages (err _, w) = (w, [])

-- The batch is committed after the handler has succeeded, and only then.
unfoldable pub process_batch_and_commit :
    (List EventMessage → Action Categories)
    → List Message
    → List EventMessage
    → World
    → World × List (List Message)
process_batch_and_commit process messages [] w = (w, [])
process_batch_and_commit process messages (e ∷ es) w = commit_if_ok messages (process (e ∷ es) w)

-- One turn of `consumeLoop`, with its calls of `CommitMessages` in order.
unfoldable pub consume_turn :
    (GoString → Option EventMessage)
    → (List EventMessage → Action Categories)
    → List Fetch
    → World
    → World × List (List Message)
unfolding process_batch_and_commit
consume_turn decode process fs w =
    let c = collect_batch decode fs in
    let (w', commits) = process_batch_and_commit process c.batch c.events w in
    (w', c.commits ++ commits)

-- The loop, over the fetches of its turns until the shutdown.
unfoldable pub consume_loop :
    (GoString → Option EventMessage)
    → (List EventMessage → Action Categories)
    → List (List Fetch)
    → World
    → World × List (List Message)
unfolding consume_turn
consume_loop decode process [] w = (w, [])
consume_loop decode process (fs ∷ turns) w =
    let (w1, first) = consume_turn decode process fs w in
    let (w2, rest) = consume_loop decode process turns w1 in (w2, first ++ rest)
