-- ===== src/Observability.antt =====
-- internal/observability/health.go: the readiness of a service.
pub mod Metrics
pub mod Middleware
pub mod Names
use webhook_service.Prelude.{
  ℕ, ◌≡◌, ◌↔◌, refl, Bool, true, false, ◌&&◌, ◌||◌, not, Option, none, some, List, [], ◌∷◌,
  GoString, lit, str_eq, is_empty, arith, if◌then◌else◌,
}

-- What a `Ping` does: it returns nil, it returns an error, or it panics.
pub data PingResult : Type 0 where
  healthy unhealthy panicked : PingResult

-- The answer of a call that returns nil exactly where it is `true`.
abbrev pub ping_result : Bool → PingResult
ping_result b = if b then healthy else unhealthy

-- A check and what its `Ping` does on the request; a nil checker has none.
pub record ReadinessCheck : Type 0 where
  pub name : GoString
  pub checker : Option PingResult

pub record ReadyResponse : Type 0 where
  pub status_code : ℕ
  pub status : GoString
  pub checks : List (GoString × GoString)

abbrev set_check : GoString → GoString → List (GoString × GoString) → List (GoString × GoString)
set_check name text [] = (name, text) ∷ []
set_check name text ((n, t) ∷ m) =
    let rest = set_check name text m in if str_eq n name then (n, text) ∷ m else (n, t) ∷ rest

-- What one check makes of the map and of whether all are healthy so far; nothing where it panics.
unfoldable pub run_check :
    ReadinessCheck → List (GoString × GoString) × Bool → Option (List (GoString × GoString) × Bool)
run_check c (m, all_healthy) = if is_empty c.name then some (m, all_healthy) else elim c.checker [
  | none ↦ some (m, all_healthy)
  | some r ↦ elim r [
    | healthy ↦ some (set_check c.name (lit "ok") m, all_healthy)
    | unhealthy ↦ some (set_check c.name (lit "unavailable") m, false)
    | panicked ↦ none
  ]
]

-- The loop over the checks.
unfoldable pub run_checks :
    List ReadinessCheck
    → List (GoString × GoString) × Bool
    → Option (List (GoString × GoString) × Bool)
unfolding run_check
run_checks [] r = some r
run_checks (c ∷ cs) r = elim (run_check c r) [ none ↦ none | some r' ↦ run_checks cs r' ]

abbrev respond : Option (List (GoString × GoString) × Bool) → Option ReadyResponse
respond none = none
respond (some (m, true)) = some (record { status_code = 200; status = lit "ok"; checks = m })
respond (some (m, false)) = some (record { status_code = 503; status = lit "degraded"; checks = m })

-- `Ready`, where `ready` is what `SetReady` stored last. After a panic there is no answer: net/http
-- recovers from it and drops the connection.
unfoldable pub ready_response : (ready : Bool) → List ReadinessCheck → Option ReadyResponse
unfolding run_checks
ready_response ready checks =
    respond
      (run_checks checks ((lit "app", if ready then lit "ok" else lit "not ready") ∷ [], ready))

abbrev pub status_code_of : Option ReadyResponse → Option ℕ
status_code_of none = none
status_code_of (some r) = some r.status_code

-- The check is skipped or healthy.
abbrev pub is_up : ReadinessCheck → Bool
is_up c =
    is_empty c.name
    || elim c.checker [ none ↦ true | some r ↦ elim r [ healthy ↦ true | _ ↦ false ] ]

abbrev pub all_up : List ReadinessCheck → Bool
all_up [] = true
all_up (c ∷ cs) = is_up c && all_up cs

-- The check is not skipped and panics.
abbrev pub does_panic : ReadinessCheck → Bool
does_panic c =
    not (is_empty c.name)
    && elim c.checker [ none ↦ false | some r ↦ elim r [ panicked ↦ true | _ ↦ false ] ]

abbrev pub any_panics : List ReadinessCheck → Bool
any_panics [] = false
any_panics (c ∷ cs) = does_panic c || any_panics cs

abbrev verdict : Bool → List ReadinessCheck → Option Bool
verdict b cs = if any_panics cs then none else some (b && all_up cs)

abbrev healthy_of : Option (List (GoString × GoString) × Bool) → Option Bool
healthy_of none = none
healthy_of (some (m, b)) = some b

run_check_healthy :
    (c : ReadinessCheck) (r : List (GoString × GoString) × Bool)
    → healthy_of (run_check c r) ≡ (if does_panic c then none else some (r.1 && is_up c))
unfolding run_check
run_check_healthy c (m, b) = ground arith

run_rest_healthy :
    (c : ReadinessCheck) (cs : List ReadinessCheck) (b : Bool)
    (o : Option (List (GoString × GoString) × Bool))
    → healthy_of o ≡ (if does_panic c then none else some (b && is_up c))
    → ((r : List (GoString × GoString) × Bool) → healthy_of (run_checks cs r) ≡ verdict r.1 cs)
    → healthy_of (elim o [ none ↦ none | some r ↦ run_checks cs r ]) ≡ verdict b (c ∷ cs)
run_rest_healthy c cs b none e rest = ground (arith, e)
run_rest_healthy c cs b (some r) e rest = ground (arith, e, rest r)

run_checks_healthy :
    (cs : List ReadinessCheck) (r : List (GoString × GoString) × Bool)
    → healthy_of (run_checks cs r) ≡ verdict r.1 cs
unfolding run_checks
run_checks_healthy [] (m, b) = ground arith
run_checks_healthy (c ∷ cs) (m, b) =
    run_rest_healthy c cs b (run_check c (m, b)) (run_check_healthy c (m, b))
      (run_checks_healthy cs)

up_without_panic : (cs : List ReadinessCheck) → any_panics cs ≡ true → all_up cs ≡ false
up_without_panic [] h = absurd (cc h)
up_without_panic (c ∷ cs) h = ground (arith, h, up_without_panic cs)

status_code-respond :
    (o : Option (List (GoString × GoString) × Bool)) (b : Bool) (cs : List ReadinessCheck)
    → healthy_of o ≡ verdict b cs
    → ((status_code_of (respond o) ≡ some 200) ↔ ((b && all_up cs) ≡ true))
      × ((respond o ≡ none) ↔ (any_panics cs ≡ true))
status_code-respond none b cs e = ground (arith, e, up_without_panic cs)
status_code-respond (some (m, true)) b cs e = ground (arith, e, up_without_panic cs)
status_code-respond (some (m, false)) b cs e = ground (arith, e, up_without_panic cs)

-- A service answers 200 exactly where it is ready and all of its checks are up, and does not answer
-- exactly where one of them panics.
pub ready_response_iff :
    (ready : Bool) (checks : List ReadinessCheck)
    → ((status_code_of (ready_response ready checks) ≡ some 200)
        ↔ ((ready && all_up checks) ≡ true))
      × ((ready_response ready checks ≡ none) ↔ (any_panics checks ≡ true))
unfolding ready_response
ready_response_iff ready checks =
    status_code-respond
      (run_checks checks ((lit "app", if ready then lit "ok" else lit "not ready") ∷ [], ready))
      ready checks (run_checks_healthy checks _)
