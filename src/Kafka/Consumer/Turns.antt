-- ===== src/Kafka/Consumer/Turns.antt =====
-- internal/kafka/consumer.go: the fetches that the consumer's loop makes of its reader, batch by batch.
use webhook_service.Prelude.{
  ℕ, zero, suc, ◌≡◌, ap, true, false, Option, some, List, [], ◌∷◌, Bool-cases, Option-cases, inl,
  inr, subst,
}
use webhook_service.Prelude.Int.{pos, ◌+ℤ◌, ◌-ℤ◌, ltb_ℤ, leb_ℤ}
use webhook_service.Domain.Event.{Time, Duration}
use webhook_service.Kafka.Consumer.{Fetch}
use webhook_service.Kafka.Consumer.Loop.{
  Reader, fetch_timeout, Round, ended, made, collect_round, collect_rounds, collect_fetches, go_on,
}

-- The fetches that a batch with this deadline makes of the reader from a tick on, and the tick at which it
-- ends: at the deadline, at a signal, or where no time remains. Every fetch that is made before is in it.
pub data Fetches (r : Reader) (deadline : Time) : ℕ → List Fetch → ℕ → Type 0 where
  at_deadline : (t : ℕ) → ltb_ℤ (r.now t) deadline ≡ false → Fetches r deadline t [] (suc t)
  at_signal : (t : ℕ) → r.stopped (suc t) ≡ true → Fetches r deadline t [] (suc (suc t))
  no_time :
      (t : ℕ)
      → leb_ℤ (deadline -ℤ r.now (suc (suc t))) (pos 0) ≡ true
      → Fetches r deadline t [] (suc (suc (suc t)))
  one_more :
      (t : ℕ) {fs : List Fetch} {t' : ℕ}
      → ltb_ℤ (r.now t) deadline ≡ true
      → r.stopped (suc t) ≡ false
      → leb_ℤ (deadline -ℤ r.now (suc (suc t))) (pos 0) ≡ false
      → Fetches r deadline (suc (suc (suc (suc t)))) fs t'
      → Fetches r deadline t
          (r.fetch (suc (suc (suc t))) (fetch_timeout (deadline -ℤ r.now (suc (suc t)))) ∷ fs)
          t'

-- The turns that the loop makes of the reader from a tick on, one batch each, until it sees a signal.
pub data Turns (r : Reader) (timeout : Duration) : ℕ → List (List Fetch) → Type 0 where
  signalled : (t : ℕ) → r.stopped t ≡ true → Turns r timeout t []
  turn :
      (t : ℕ) {fs : List Fetch} {t' : ℕ} {turns : List (List Fetch)}
      → r.stopped t ≡ false
      → Fetches r (r.now (suc t) +ℤ timeout) (suc (suc t)) fs t'
      → Turns r timeout t' turns
      → Turns r timeout t (fs ∷ turns)

-- A round as a step of `Fetches`.
abbrev RoundOf : Reader → Time → ℕ → Round → Type 0
RoundOf r deadline t (ended t') = Fetches r deadline t [] t'
RoundOf r deadline t (made f t') =
    (fs : List Fetch) (t1 : ℕ) → Fetches r deadline t' fs t1 → Fetches r deadline t (f ∷ fs) t1

collect_round-Fetches :
    (r : Reader) (deadline : Time) (t : ℕ) → RoundOf r deadline t (collect_round r deadline t)
unfolding collect_round
collect_round-Fetches r deadline t = elim (Bool-cases (ltb_ℤ (r.now t) deadline)) [
  | inr over ↦ rw over (at_deadline t over)
  | inl before ↦ elim (Bool-cases (r.stopped (suc t))) [
    | inl stop ↦ rw (before, stop) (at_signal t stop)
    | inr goes ↦ elim (Bool-cases (leb_ℤ (deadline -ℤ r.now (suc (suc t))) (pos 0))) [
      | inl out ↦ rw (before, goes, out) (no_time t out)
      | inr room ↦ rw (before, goes, room) (λ fs t1 more. one_more t before goes room more)
    ]
  ]
]

some_injective : {A : Type 0} {x y : A} → some x ≡ some y → x ≡ y
some_injective h = cc

some_pair : {A B : Type 0} {x y : A × B} → some x ≡ some y → (x.0 ≡ y.0) × (x.1 ≡ y.1)
some_pair h = (ap (λ p. p.0) (some_injective h), ap (λ p. p.1) (some_injective h))

go_on-Fetches :
    (r : Reader) (deadline : Time) (t : ℕ) (x : Round) (rest : ℕ → Option (List Fetch × ℕ))
    (fs : List Fetch) (t' : ℕ)
    → RoundOf r deadline t x
    → ((t1 : ℕ) (gs : List Fetch) (t2 : ℕ) → rest t1 ≡ some (gs, t2) → Fetches r deadline t1 gs t2)
    → go_on x rest ≡ some (fs, t')
    → Fetches r deadline t fs t'
go_on-Fetches r deadline t (ended t1) rest fs t' one more e =
    let (a, b) = some_pair e in
    subst (λ gs. Fetches r deadline t gs t') a (subst (Fetches r deadline t []) b one)
go_on-Fetches r deadline t (made f t1) rest fs t' one more e = elim (Option-cases (rest t1)) [
  | inl nothing ↦ absurd (cc (rw nothing at e))
  | inr ((gs, t2), some_rest) ↦
      let (a, b) = some_pair (rw some_rest at e) in
      subst (λ hs. Fetches r deadline t hs t') a
        (subst (Fetches r deadline t (f ∷ gs)) b (one gs t2 (more t1 gs t2 some_rest)))
]

collect_rounds-Fetches :
    (r : Reader) (deadline : Time) (fuel t : ℕ) (fs : List Fetch) (t' : ℕ)
    → collect_rounds r deadline fuel t ≡ some (fs, t')
    → Fetches r deadline t fs t'
unfolding collect_rounds
collect_rounds-Fetches r deadline zero t fs t' e = absurd (cc e)
collect_rounds-Fetches r deadline (suc fuel) t fs t' e =
    go_on-Fetches r deadline t (collect_round r deadline t)
      (λ t1. collect_rounds r deadline fuel t1) fs t' (collect_round-Fetches r deadline t)
      (λ t1 gs t2 e1. collect_rounds-Fetches r deadline fuel t1 gs t2 e1) e

pub collect_fetches-Fetches :
    (r : Reader) (timeout : Duration) (fuel t : ℕ) (fs : List Fetch) (t' : ℕ)
    → collect_fetches r timeout fuel t ≡ some (fs, t')
    → Fetches r (r.now t +ℤ timeout) (suc t) fs t'
unfolding collect_fetches
collect_fetches-Fetches r timeout fuel t fs t' e =
    collect_rounds-Fetches r (r.now t +ℤ timeout) fuel (suc t) fs t' e
