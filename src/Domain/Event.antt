-- ===== src/Domain/Event.antt =====
-- internal/domain/event.go and errors.go. An instant is the number of nanoseconds since Go's zero
-- time; `json.RawMessage` is the text of the JSON value; a pointer that may be nil is an `Option`.
use webhook_service.Prelude.{ℕ, Option, GoString}
use webhook_service.Prelude.Int.{ℤ}

-- An instant, in nanoseconds; 0 is the zero `time.Time`.
abbrev pub Time : Type 0
Time = ℤ

-- A `time.Duration`, in nanoseconds.
abbrev pub Duration : Type 0
Duration = ℤ

-- The errors that callers tell apart. `fmt.Errorf` with `%w` keeps the identity that `errors.Is`
-- reads, so a wrapped error is the same value here. `constraint_violation` is a constraint that PostgreSQL refuses
-- to break; `unavailable` is any failure of an external
-- service; `nil_event` is the error of a nil argument.
pub data Err : Type 0 where
  not_found already_exists invalid_input replay_not_eligible : Err
  claim_lost nil_event constraint_violation unavailable : Err

pub data EventStatus : Type 0 where
  pending processing delivered retrying throttled failed : EventStatus
  unset : EventStatus

pub record Event : Type 0 where
  pub id : GoString
  pub type : GoString
  pub source : GoString
  pub payload : GoString
  pub status : EventStatus
  pub attempts : ℤ
  pub max_attempts : ℤ
  pub next_attempt_at : Option Time
  pub last_error : Option GoString
  pub created_at : Time
  pub updated_at : Time
  pub delivered_at : Option Time

pub record DeliveryAttempt : Type 0 where
  pub id : ℕ
  pub event_id : GoString
  pub delivery_id : GoString
  pub subscription_id : GoString
  pub attempt_number : ℤ
  pub generation : ℤ
  pub status_code : Option ℤ
  pub response_body : Option GoString
  pub error : Option GoString
  pub duration_ms : ℤ
  pub created_at : Time
