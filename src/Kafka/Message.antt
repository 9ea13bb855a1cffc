-- ===== src/Kafka/Message.antt =====
-- internal/kafka/consumer.go: the event as Kafka carries it. The trace id travels in a header.
use webhook_service.Prelude.{Option, GoString}
use webhook_service.Prelude.Int.{ℤ}
use webhook_service.Domain.Event.{Time}

pub record EventMessage : Type 0 where
  pub id : GoString
  pub type : GoString
  pub source : GoString
  pub payload : GoString
  pub max_attempts : ℤ
  pub attempt : ℤ
  pub last_error : GoString
  pub next_attempt_at : Option Time
  pub trace_id : GoString
