-- ===== src/Retry/Policy.antt =====
-- internal/retry/policy.go: the delay before an attempt. The floating-point numbers, `math.Pow` and the
-- draws of `math/rand` are a parameter, with the laws that the theorems use: what IEEE 754 says of
-- conversions, comparisons and sums.
use webhook_service.Prelude.{
  ℕ, ◌<◌, ◌≡◌, ap, ◌∙◌, sym, subst, Bool, true, false, arith, if◌then◌else◌, Bool-cases, inl, inr,
}
use webhook_service.Prelude.Int.{ℤ, pos, ◌+ℤ◌, ◌-ℤ◌, ◌≤ℤ◌, ◌<ℤ◌}
use webhook_service.Domain.Event.{Time, Duration}
use webhook_service.Kafka.Handler.Options.{RetryPolicy}

-- `float` is the conversion from an integer, `truncate` the one to a `time.Duration`, `gtb` the test
-- `x > y`, and `draw` what `rand.Float64` gives at a tick.
pub record Floats : Type 1 where
  pub F : Type 0
  pub float : ℤ → F
  pub truncate : F → ℤ
  pub tenth : F
  pub plus : F → F → F
  pub minus : F → F → F
  pub times : F → F → F
  pub pow : F → F → F
  pub gtb : F → F → Bool
  pub draw : ℕ → F

-- A `Number` is no NaN, and its absolute value is below 2 ^ 62. Such numbers keep their order when they
-- are converted to an integer; an integer below 2 ^ 53 has a float of its own; and its sum with a number
-- of one at least is rounded to the next integer at least.
pub record Laws (fl : Floats) : Type 1 where
  pub Number : fl.F → Type 0
  pub float-Number : (n : ℕ) → n < 9007199254740992 → Number (fl.float (pos n))
  pub truncate-float : (n : ℕ) → n < 9007199254740992 → fl.truncate (fl.float (pos n)) ≡ pos n
  pub truncate_mono :
      (x y : fl.F) → Number x → Number y → fl.gtb x y ≡ false → fl.truncate x ≤ℤ fl.truncate y
  pub truncate-plus :
      (n : ℕ) (x : fl.F)
      → n < 9007199254740991
      → Number x
      → fl.gtb (fl.float (pos 1)) x ≡ false
      → pos n <ℤ fl.truncate (fl.plus (fl.float (pos n)) x)

module _ (fl : Floats) where
  pub record Policy : Type 0 where
    pub initial_interval : Duration
    pub max_interval : Duration
    pub multiplier : fl.F
    pub jitter : fl.F
    pub max_attempts : ℤ

  abbrev pub default_policy : Policy
  default_policy = record {
    initial_interval = pos 1000000000;
    max_interval = pos 3600000000000;
    multiplier = fl.float (pos 2);
    jitter = fl.tenth;
    max_attempts = pos 5;
  }

  -- The exponential delay, before the cap.
  abbrev pub backoff : Policy → ℤ → fl.F
  backoff p attempt =
      fl.times (fl.float p.initial_interval) (fl.pow p.multiplier (fl.float (attempt -ℤ pos 1)))

  abbrev pub capped : Policy → ℤ → fl.F
  capped p attempt =
      if fl.gtb (backoff p attempt) (fl.float p.max_interval)
      then fl.float p.max_interval
      else backoff p attempt

  -- The jitter of a draw, up or down.
  abbrev pub jitter_offset : Policy → ℕ → fl.F → fl.F
  jitter_offset p tick delay =
      fl.times (fl.minus (fl.times (fl.draw tick) (fl.float (pos 2))) (fl.float (pos 1)))
        (fl.times delay p.jitter)

  unfoldable pub calculate_delay : Policy → ℕ → ℤ → Duration
  calculate_delay p tick attempt =
      let delay = capped p attempt in
      fl.truncate (
        if fl.gtb p.jitter (fl.float (pos 0))
        then fl.plus delay (jitter_offset p tick delay)
        else delay)

  unfoldable pub next_attempt_time : Policy → ℕ → Time → ℤ → Time
  unfolding calculate_delay
  next_attempt_time p tick now attempt = now +ℤ calculate_delay p tick attempt

  -- The policy as the delivery handler uses it.
  abbrev pub policy_of : Policy → RetryPolicy
  policy_of p = record { delay = calculate_delay p; max_attempts = p.max_attempts }

abbrev jittered : (fl : Floats) → Policy fl → ℕ → fl.F → Bool → Duration
jittered fl p tick delay b =
    fl.truncate (if b then fl.plus delay (jitter_offset fl p tick delay) else delay)

abbrev cut : (fl : Floats) → Policy fl → ℤ → Bool → fl.F
cut fl p attempt b = if b then fl.float p.max_interval else backoff fl p attempt

calculate_delay-tests :
    (fl : Floats) (p : Policy fl) (tick : ℕ) (attempt : ℤ) {jitters over : Bool}
    → fl.gtb p.jitter (fl.float (pos 0)) ≡ jitters
    → fl.gtb (backoff fl p attempt) (fl.float p.max_interval) ≡ over
    → calculate_delay fl p tick attempt ≡ jittered fl p tick (cut fl p attempt over) jitters
unfolding calculate_delay
calculate_delay-tests fl p tick attempt j o = λ i. jittered fl p tick (cut fl p attempt (o i)) (j i)

le_refl_ℤ : (x : ℤ) → x ≤ℤ x
le_refl_ℤ x = omega arith

-- Without jitter no delay is above `MaxInterval`, whatever the attempt, where this is an interval of
-- less than 2 ^ 53 nanoseconds and the exponential delay is a number where it is not above it.
pub calculate_delay-bounded :
    (fl : Floats) (laws : Laws fl) (p : Policy fl) (tick : ℕ) (attempt : ℤ) (m : ℕ)
    → p.max_interval ≡ pos m
    → m < 9007199254740992
    → (fl.gtb (backoff fl p attempt) (fl.float p.max_interval) ≡ false
        → laws.Number (backoff fl p attempt))
    → fl.gtb p.jitter (fl.float (pos 0)) ≡ false
    → calculate_delay fl p tick attempt ≤ℤ p.max_interval
calculate_delay-bounded fl laws p tick attempt m e small number still =
    let exact = ap (λ x. fl.truncate (fl.float x)) e ∙ laws.truncate-float m small ∙ sym e in
    let top = subst (λ x. laws.Number (fl.float x)) (sym e) (laws.float-Number m small) in
    elim (Bool-cases (fl.gtb (backoff fl p attempt) (fl.float p.max_interval))) [
      | inl over ↦
          rw (calculate_delay-tests fl p tick attempt still over, exact) (le_refl_ℤ p.max_interval)
      | inr under ↦ rw (calculate_delay-tests fl p tick attempt still under) (
          subst (λ x. fl.truncate (backoff fl p attempt) ≤ℤ x) exact
            (laws.truncate_mono (backoff fl p attempt) (fl.float p.max_interval) (number under) top
              under))
    ]

-- Above the cap the jitter comes on top of it: wherever the exponential delay is above `MaxInterval` and
-- the draw moves it up by a nanosecond or more, the delay is above `MaxInterval`.
pub calculate_delay-above_cap :
    (fl : Floats) (laws : Laws fl) (p : Policy fl) (tick : ℕ) (attempt : ℤ) (m : ℕ)
    → p.max_interval ≡ pos m
    → m < 9007199254740991
    → fl.gtb (backoff fl p attempt) (fl.float p.max_interval) ≡ true
    → fl.gtb p.jitter (fl.float (pos 0)) ≡ true
    → laws.Number (jitter_offset fl p tick (fl.float p.max_interval))
    → fl.gtb (fl.float (pos 1)) (jitter_offset fl p tick (fl.float p.max_interval)) ≡ false
    → p.max_interval <ℤ calculate_delay fl p tick attempt
calculate_delay-above_cap fl laws p tick attempt m e small over jitters number up =
    rw (calculate_delay-tests fl p tick attempt jitters over) (
      subst
        (λ x.
          x
          <ℤ fl.truncate (fl.plus (fl.float x) (jitter_offset fl p tick (fl.float p.max_interval))))
        (sym e)
        (laws.truncate-plus m (jitter_offset fl p tick (fl.float p.max_interval)) small number up))
