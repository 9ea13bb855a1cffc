-- ===== src/Kafka/Consumer/Ends.antt =====
-- internal/kafka/consumer.go: the loops end, a batch by its deadline and the consumer by its signal, and
-- the consumer's loop is a run over the fetches of its turns.
use webhook_service.Prelude.{
  ℕ, zero, suc, ◌+◌, ◌≤◌, ◌<◌, ◌≡◌, refl, ap, ◌∙◌, inl, inr, true, false, Option, some, List, [],
  ◌∷◌, arith, Bool-cases,
}
use native.Mathlib.Decide.{dec_lt}
use webhook_service.Prelude.Int.{pos, ◌+ℤ◌, ◌≤ℤ◌, ◌<ℤ◌, +ℤ_parts}
use webhook_service.Domain.Event.{Time}
use webhook_service.Repository.World.{World}
use webhook_service.Kafka.Consumer.{Message, Fetch, consume_turn, consume_loop}
use webhook_service.Kafka.Consumer.Turns.{Turns, signalled, turn, collect_fetches-Fetches}
use webhook_service.Kafka.Consumer.Loop.{
  Reader, Round, ended, made, collect_round, collect_rounds, collect_fetches, add_fetch, go_on,
  Work, run_consumer,
}

-- The clock runs, by a nanosecond at least between two questions.
abbrev pub Advances : Reader → Type 0
Advances r = (t : ℕ) → r.now t <ℤ r.now (suc t)

-- A batch ends at a later tick.
abbrev Done : ℕ → Option (List Fetch × ℕ) → Type 0
Done t o = (fs : List Fetch) × (t' : ℕ) × (o ≡ some (fs, t')) × (t < t')

-- A round ends the batch, or stands before the deadline and is over four ticks later.
abbrev Moves : Reader → Time → ℕ → Round → Type 0
Moves r deadline t (ended t') = t < t'
Moves r deadline t (made f t') = (t' ≡ suc (suc (suc (suc t)))) × (r.now t <ℤ deadline)

collect_round-Moves :
    (r : Reader) (deadline : Time) (t : ℕ) → Moves r deadline t (collect_round r deadline t)
unfolding collect_round
collect_round-Moves r deadline t = ground arith

Done-add_fetch :
    (f : Fetch) (t t1 : ℕ) (o : Option (List Fetch × ℕ))
    → t < t1
    → Done t1 o
    → Done t (add_fetch f o)
Done-add_fetch f t t1 o lt (fs, t', e, later) =
    (f ∷ fs, t', ap (add_fetch f) e, omega (arith, lt, later))

later_by_four :
    (r : Reader) (deadline : Time) (n t : ℕ)
    → Advances r
    → deadline ≤ℤ r.now t +ℤ pos (suc n)
    → deadline ≤ℤ r.now (suc (suc (suc (suc t)))) +ℤ pos n
later_by_four r deadline n t runs le = omega (
  arith,
  +ℤ_parts (r.now t) (pos (suc n)),
  +ℤ_parts (r.now (suc (suc (suc (suc t))))) (pos n),
  runs t,
  runs (suc t),
  runs (suc (suc t)),
  runs (suc (suc (suc t))),
  le,
)

past_deadline :
    (r : Reader) (deadline : Time) (t : ℕ) → deadline ≤ℤ r.now t +ℤ pos 0 → r.now t <ℤ deadline → ⊥
past_deadline r deadline t le lt = omega (arith, +ℤ_parts (r.now t) (pos 0), le, lt)

Done-go_on :
    (r : Reader) (deadline : Time) (t : ℕ) (x : Round) (rest : ℕ → Option (List Fetch × ℕ))
    → (r.now t <ℤ deadline → Done (suc (suc (suc (suc t)))) (rest (suc (suc (suc (suc t))))))
    → Moves r deadline t x
    → Done t (go_on x rest)
Done-go_on r deadline t (ended t') rest done later = ([], t', refl, later)
Done-go_on r deadline t (made f t') rest done (at, before) = rw at (
    Done-add_fetch f t (suc (suc (suc (suc t)))) (rest (suc (suc (suc (suc t))))) (omega arith)
      (done before))

collect_rounds-Done :
    (r : Reader) (deadline : Time) (fuel n t : ℕ)
    → Advances r
    → deadline ≤ℤ r.now t +ℤ pos n
    → n < fuel
    → Done t (collect_rounds r deadline fuel t)
unfolding collect_rounds
collect_rounds-Done r deadline zero n t runs le enough = absurd (omega (arith, enough))
collect_rounds-Done r deadline (suc fuel) zero t runs le enough =
    Done-go_on r deadline t (collect_round r deadline t) (λ t'. collect_rounds r deadline fuel t')
      (λ before. absurd (past_deadline r deadline t le before)) (collect_round-Moves r deadline t)
collect_rounds-Done r deadline (suc fuel) (suc n) t runs le enough =
    Done-go_on r deadline t (collect_round r deadline t) (λ t'. collect_rounds r deadline fuel t')
      (λ before.
        collect_rounds-Done r deadline fuel n (suc (suc (suc (suc t)))) runs
          (later_by_four r deadline n t runs le) (omega (arith, enough)))
      (collect_round-Moves r deadline t)

collect_fetches-Done :
    (r : Reader) (n fuel t : ℕ) → Advances r → n < fuel → Done t (collect_fetches r (pos n) fuel t)
unfolding collect_fetches
collect_fetches-Done r n fuel t runs enough =
    let (fs, t', e, lt) =
      collect_rounds-Done r (r.now t +ℤ pos n) fuel n (suc t) runs
        (omega (arith, +ℤ_parts (r.now t) (pos n), +ℤ_parts (r.now (suc t)) (pos n), runs t))
        enough in
    (fs, t', e, omega (arith, lt))

-- The loop has ended, and was a run over the fetches of the turns that it made of the reader.
abbrev pub IsRun : Reader → Work → ℕ → World → Option (World × List (List Message)) → Type 0
IsRun r k t w o =
    (turns : List (List Fetch)) × Turns r k.batch_timeout t turns
    × (o ≡ some (consume_loop k.decode k.process turns w))

IsRun-turn :
    (r : Reader) (k : Work) (fuel t t' : ℕ) (w : World) (fs : List Fetch)
    → r.stopped t ≡ false
    → collect_fetches r k.batch_timeout k.batch_fuel (suc t) ≡ some (fs, t')
    → IsRun r k t'
        (consume_turn k.decode k.process fs w).0
        (run_consumer r k fuel t' (consume_turn k.decode k.process fs w).0)
    → IsRun r k t w (run_consumer r k (suc fuel) t w)
unfolding run_consumer consume_loop
IsRun-turn r k fuel t t' w fs goes collected (turns, made_so, e) = (
  fs ∷ turns,
  turn t goes (collect_fetches-Fetches r k.batch_timeout k.batch_fuel (suc t) fs t' collected)
      made_so,
  rw (goes, collected, e, run_consumer) refl,
)

before_last :
    (r : Reader) (last t : ℕ)
    → ((n : ℕ) → last ≤ n → r.stopped n ≡ true)
    → r.stopped t ≡ false
    → t < last
before_last r last t stop goes = elim (dec_lt t last) [
  | yes lt ↦ lt
  | no ge ↦ absurd (cc (goes, stop t (omega (arith, ge))))
]

-- Once the clock runs and `Stop`, or the end of the context, is seen at every question from a tick on,
-- the consumer's loop ends, and with it `Stop` returns: a batch ends when the clock has passed its
-- timeout, the loop at the first question after the signal. What the loop has done until then is a run
-- over its turns: each has all the fetches that the reader answered from the beginning of the batch to
-- its deadline or the signal, in their order, and each batch begins where the one before it ended. A
-- batch that the signal interrupted is processed like any other.
pub run_consumer-ends :
    (r : Reader) (k : Work) (timeout last fuel t : ℕ) (w : World)
    → Advances r
    → ((n : ℕ) → last ≤ n → r.stopped n ≡ true)
    → k.batch_timeout ≡ pos timeout
    → timeout < k.batch_fuel
    → 0 < fuel
    → last < t + fuel
    → IsRun r k t w (run_consumer r k fuel t w)
unfolding run_consumer consume_loop
run_consumer-ends r k timeout last zero t w runs stop at enough some_fuel le =
    absurd (omega (arith, some_fuel))
run_consumer-ends r k timeout last (suc fuel) t w runs stop at enough some_fuel le =
    elim (Bool-cases (r.stopped t)) [
      | inl e ↦ ([], signalled t e, rw (e, run_consumer) refl)
      | inr goes ↦
          let (fs, t', e, lt) = collect_fetches-Done r timeout k.batch_fuel (suc t) runs enough in
          IsRun-turn r k fuel t t' w fs goes
            (ap (λ d. collect_fetches r d k.batch_fuel (suc t)) at ∙ e)
            (run_consumer-ends r k timeout last fuel t' _ runs stop at enough
              (omega (arith, before_last r last t stop goes, le)) (omega (arith, lt, le)))
    ]
