-- ===== src/Kafka/Consumer/Loop.antt =====
-- internal/kafka/consumer.go: the loops of `consumeLoop` and `collectBatch` under their clock and with
-- the signals that stop them. The clock, the signals and the reader (github.com/segmentio/kafka-go) are
-- outside and answer by the tick, which counts the questions. Both loops run on fuel.
use webhook_service.Prelude.{
  ℕ, zero, suc, Bool, true, false, Option, none, some, List, [], ◌∷◌, ◌++◌, GoString, if◌then◌else◌,
}
use webhook_service.Prelude.Int.{pos, ◌+ℤ◌, ◌-ℤ◌, ltb_ℤ, leb_ℤ}
use webhook_service.Domain.Event.{Time, Duration}
use webhook_service.Repository.World.{World, Action}
use webhook_service.Kafka.Message.{EventMessage}
use webhook_service.Kafka.Handler.{Categories}
use webhook_service.Kafka.Consumer.{Message, Fetch, consume_turn}

-- `stopped` is whether the context is done or `Stop` has closed the channel `shutdown`; `fetch` is what
-- `FetchMessage` answers within a timeout.
pub record Reader : Type 0 where
  pub now : ℕ → Time
  pub stopped : ℕ → Bool
  pub fetch : ℕ → Duration → Fetch

-- The timeout of one fetch: what remains of the batch, 10 ms at most.
abbrev pub fetch_timeout : Duration → Duration
fetch_timeout remaining = if ltb_ℤ (pos 10000000) remaining then pos 10000000 else remaining

-- A round of `collectBatch`: it ends the batch, or makes one fetch; with the next tick.
pub data Round : Type 0 where
  ended : ℕ → Round
  made : Fetch → ℕ → Round

unfoldable pub collect_round : Reader → Time → ℕ → Round
collect_round r deadline t =
    let remaining = deadline -ℤ r.now (suc (suc t)) in
    if ltb_ℤ (r.now t) deadline
    then if r.stopped (suc t)
      then ended (suc (suc t))
      else if leb_ℤ remaining (pos 0)
      then ended (suc (suc (suc t)))
      else made (r.fetch (suc (suc (suc t))) (fetch_timeout remaining)) (suc (suc (suc (suc t))))
    else ended (suc t)

abbrev pub add_fetch : Fetch → Option (List Fetch × ℕ) → Option (List Fetch × ℕ)
add_fetch f none = none
add_fetch f (some (fs, t)) = some (f ∷ fs, t)

abbrev pub go_on : Round → (ℕ → Option (List Fetch × ℕ)) → Option (List Fetch × ℕ)
go_on (ended t) rest = some ([], t)
go_on (made f t) rest = add_fetch f (rest t)

-- The fetches of a batch until the deadline or a signal; `none` is a lack of fuel.
unfoldable pub collect_rounds : Reader → Time → ℕ → ℕ → Option (List Fetch × ℕ)
unfolding collect_round
collect_rounds r deadline zero t = none
collect_rounds r deadline (suc fuel) t =
    go_on (collect_round r deadline t) (λ t'. collect_rounds r deadline fuel t')

-- The fetches of `collectBatch`, from the reading of the clock for its deadline.
unfoldable pub collect_fetches : Reader → Duration → ℕ → ℕ → Option (List Fetch × ℕ)
unfolding collect_rounds
collect_fetches r batch_timeout fuel t = collect_rounds r (r.now t +ℤ batch_timeout) fuel (suc t)

-- What the consumer decodes and processes by, with its `BatchTimeout`, and the fuel of a batch.
pub record Work : Type 0 where
  pub decode : GoString → Option EventMessage
  pub process : List EventMessage → Action Categories
  pub batch_timeout : Duration
  pub batch_fuel : ℕ

abbrev pub add_commits :
    List (List Message)
    → Option (World × List (List Message))
    → Option (World × List (List Message))
add_commits first none = none
add_commits first (some (w, rest)) = some (w, first ++ rest)

-- `consumeLoop`, with all of its calls of `CommitMessages`; `none` is a lack of fuel.
unfoldable pub run_consumer : Reader → Work → ℕ → ℕ → World → Option (World × List (List Message))
unfolding collect_fetches
run_consumer r k zero t w = none
run_consumer r k (suc fuel) t w = elim (r.stopped t) [
  | true ↦ some (w, [])
  | false ↦ elim (collect_fetches r k.batch_timeout k.batch_fuel (suc t)) [
    | none ↦ none
    | some (fs, t') ↦
        let (w', first) = consume_turn k.decode k.process fs w in
        add_commits first (run_consumer r k fuel t' w')
  ]
]
