-- ===== src/Tests/Consumer.antt =====
-- Runs of the theorems on the consumer.
use webhook_service.Prelude.{
  leb, arith, ℕ, zero, suc, ◌≡◌, refl, Option, none, some, List, [], ◌∷◌, GoString, lit, All,
}
use webhook_service.Domain.Event.{unavailable}
use webhook_service.Repository.World.{ok, err, Action}
use webhook_service.Kafka.Message.{EventMessage}
use webhook_service.Kafka.Handler.{Categories, process_batch}
use webhook_service.Kafka.Delivery.{message_from_delivery}
use webhook_service.Kafka.Consumer.{Message, Fetch, fetched, timed_out, collect_batch, consume_loop}
use webhook_service.Kafka.Consumer.Durable.{Kept}
use webhook_service.Kafka.Consumer.Covered.{KeptOr, left_behind, all_fetched, consume_loop-Covered}
use webhook_service.Kafka.Consumer.Commits.{Earned, consume_loop-Earned, failed_batch_passed_over}
use webhook_service.Kafka.Consumer.Loop.{Reader, Work, run_consumer}
use webhook_service.Kafka.Consumer.Ends.{IsRun, run_consumer-ends}
use webhook_service.Prelude.Int.{pos}
use webhook_service.Tests.Data.{pending_row, empty_world, calm, handler}

-- An empty value does not decode.
abbrev decode_sample : GoString → Option EventMessage
decode_sample [] = none
decode_sample (_ ∷ _) = some (message_from_delivery pending_row)

abbrev message_at : ℕ → GoString → Message
message_at offset value = record { partition = 0; offset = offset; value = value; headers = [] }

abbrev first_turn : List Fetch
first_turn = fetched (message_at 1 (lit "{}")) ∷ timed_out ∷ fetched (message_at 2 []) ∷ []

abbrev second_turn : List Fetch
second_turn = fetched (message_at 3 (lit "{}")) ∷ []

abbrev no_categories : Categories
no_categories = record { successes = []; retries = []; failures = [] }

-- The store is away at tick 0 only.
abbrev process_sample : List EventMessage → Action Categories
process_sample events w = elim w.tick [
  | zero ↦ (err unavailable, record w { tick = 1 })
  | suc n ↦ (ok no_categories, w)
]

consume_loop-Earned_example :
    All
      (Earned decode_sample process_sample)
      (consume_loop decode_sample process_sample (first_turn ∷ second_turn ∷ []) empty_world).1
consume_loop-Earned_example =
    consume_loop-Earned decode_sample process_sample (first_turn ∷ second_turn ∷ []) empty_world

consume_loop-Covered_example :
    let turns = first_turn ∷ second_turn ∷ [] in
    let r = consume_loop decode_sample (process_batch calm handler []) turns empty_world in
    All (All (Kept decode_sample r.0.db)) r.1
    × All
        (KeptOr decode_sample r.0.db (left_behind decode_sample calm handler [] turns empty_world))
        (all_fetched turns)
consume_loop-Covered_example =
    consume_loop-Covered decode_sample calm handler [] (first_turn ∷ second_turn ∷ []) empty_world

-- Offset 1 is never committed, and offset 3 is.
failed_batch_passed_over_example :
    (consume_loop decode_sample process_sample (first_turn ∷ second_turn ∷ []) empty_world).1
    ≡ (message_at 2 [] ∷ []) ∷ ((message_at 3 (lit "{}") ∷ []) ∷ [])
unfolding collect_batch
failed_batch_passed_over_example =
    failed_batch_passed_over decode_sample process_sample first_turn second_turn empty_world
      (λ e. cc e) (λ e. cc e) refl refl

-- A clock that counts the questions, a signal at tick 20, and one message for each fetch.
abbrev reader : Reader
reader = record {
  now = λ tick. pos tick;
  stopped = λ tick. leb 20 tick;
  fetch = λ tick timeout. fetched (message_at tick (lit "{}"));
}

abbrev work : Work
work = record {
  decode = decode_sample;
  process = process_sample;
  batch_timeout = pos 9;
  batch_fuel = 10;
}

run_consumer-ends_example :
    IsRun reader work 0 empty_world (run_consumer reader work 21 0 empty_world)
run_consumer-ends_example =
    run_consumer-ends reader work 9 20 21 0 empty_world (λ tick. omega arith)
      (λ tick le. ground (arith, le)) refl (omega arith) (omega arith) (omega arith)
