-- ===== src/Observability/Middleware.antt =====
-- internal/observability/logging.go and middleware.go: the trace id that a request gets, and what is
-- counted of it. Log lines are left out.
use webhook_service.Prelude.{ℕ, ◌∷◌, GoString, is_empty, if◌then◌else◌}
use webhook_service.Domain.Event.{Duration}
use webhook_service.Observability.Metrics.{Metrics}

-- A request, as far as the middleware reads it: `trace` is the header `X-Trace-ID`, empty where it is
-- not set, and `pattern` the route that chi has found.
pub record HttpRequest : Type 0 where
  pub method : GoString
  pub path : GoString
  pub pattern : GoString
  pub trace : GoString

-- `LoggingMiddleware`: the trace id in the header of the response, and what the next handler makes of
-- a context with it; `fresh` is what `NewTraceID` gives.
unfoldable pub logging_middleware :
    {A : Type 0} → GoString → HttpRequest → (GoString → A) → GoString × A
logging_middleware fresh r next =
    let trace = if is_empty r.trace then fresh else r.trace in (trace, next trace)

-- `MetricsMiddleware`, once the next handler has answered.
unfoldable pub metrics_middleware : HttpRequest → ℕ → Duration → Metrics → Metrics
metrics_middleware r status duration m =
    let path = if is_empty r.pattern then r.path else r.pattern in
    record m {
      http_requests_total = (r.method, path, status) ∷ m.http_requests_total;
      http_request_duration = (r.method, path, duration) ∷ m.http_request_duration;
    }
