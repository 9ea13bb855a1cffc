-- ===== src/Api/Edge.antt =====
-- internal/api/routes.go and handler.go: a POST of an event from the middleware to the broker, and what
-- a consumer makes of what was written.
use mathlib.Core.List.{append-nil}
use webhook_service.Prelude.{
  ℕ, suc, ◌≡◌, ◌≢◌, sym, ap, ◌∙◌, Bool, Option, none, some, List, [], ◌∷◌, GoString, is_some, not,
  arith, if◌then◌else◌, ◌==◌,
}
use webhook_service.Prelude.Int.{◌-ℤ◌}
use webhook_service.Repository.World.{World, Environment, advance}
use webhook_service.Kafka.Message.{EventMessage}
use webhook_service.Kafka.Producer.{Outgoing, publish}
use webhook_service.Kafka.Producer.RoundTrip.{flat, received, Decodes, publish-collect_batch}
use webhook_service.Kafka.Consumer.{collect_batch}
use webhook_service.Observability.Metrics.{Metrics}
use webhook_service.Observability.Middleware.{HttpRequest, logging_middleware, metrics_middleware}
use webhook_service.Api.Response.{CreateEventRequest, HttpResponse}
use webhook_service.Api.Handler.{message_of, create_event}

-- What a request has led to: the answer with its trace header, the calls of the writer, the metrics
-- and the world.
pub record Served : Type 0 where
  pub response : HttpResponse
  pub response_trace : GoString
  pub writes : List (List Outgoing)
  pub metrics : Metrics
  pub world : World

module _ (env : Environment) (encode : EventMessage → Option GoString)
    (write : List Outgoing → Bool) where
  abbrev succeeds : GoString → ℕ → EventMessage → Bool
  succeeds trace tick event = not (is_some (publish encode write trace event).0)

  abbrev writes_of : GoString → Option EventMessage → List (List Outgoing)
  writes_of trace none = []
  writes_of trace (some event) = (publish encode write trace event).1

  -- `EventsReceived` counts the events that were published.
  abbrev count_received : ℕ → Metrics → Metrics
  count_received status m =
      if status == 202 then record m { events_received = suc m.events_received } else m

  -- The handler behind `MetricsMiddleware`, in a context with a trace id.
  abbrev served :
      HttpRequest → Metrics → World → GoString → HttpResponse × World × Option EventMessage → Served
  served r m w trace (response, w', event) = record {
    response = response;
    response_trace = trace;
    writes = writes_of trace event;
    metrics =
        metrics_middleware r response.status (env.now w'.tick -ℤ env.now w.tick)
          (count_received response.status m);
    world = advance w';
  }

  -- `POST /events` through `NewRouter`, with a logger and metrics.
  unfoldable pub post_event :
      GoString → HttpRequest → Option CreateEventRequest → Metrics → World → Served
  unfolding logging_middleware metrics_middleware create_event
  post_event fresh r body m w =
      (logging_middleware fresh r
        λ trace. served r m w trace (create_event env (succeeds trace) body (advance w))).1

  -- `publish` took the event.
  accepted :
      (fresh : GoString) (r : HttpRequest) (req : CreateEventRequest) (m : Metrics) (w : World)
      → let a = post_event fresh r (some req) m w in
        a.response.status ≡ 202
        → ((publish encode write a.response_trace (message_of req)).0 ≡ none)
          × (a.writes ≡ (publish encode write a.response_trace (message_of req)).1)
          × (a.metrics.events_received ≡ suc m.events_received)
  unfolding post_event logging_middleware metrics_middleware create_event
  accepted fresh r req m w good = ground (arith, good)

  trace-filled :
      (fresh : GoString) (r : HttpRequest) (body : Option CreateEventRequest) (m : Metrics)
      (w : World)
      → fresh ≢ []
      → (post_event fresh r body m w).response_trace ≢ []
  unfolding post_event logging_middleware
  trace-filled fresh r body m w filled bad = ground (arith, filled, bad)

  -- An event that is accepted with 202 reaches a consumer that fetches what was written, once, with its
  -- payload as encoding/json writes it and with the trace id that the answer shows: that of the
  -- request's header, or a fresh one. It is counted as received. What is assumed is that fresh ids are
  -- not empty, and that decoding the encoded event gives it back with its payload rewritten so and
  -- without its trace id.
  pub post_event-received :
      (decode : GoString → Option EventMessage) (rewrite : GoString → GoString) (fresh : GoString)
      (r : HttpRequest) (req : CreateEventRequest) (m : Metrics) (w : World) (offset : ℕ)
      → fresh ≢ []
      → Decodes encode write decode rewrite (message_of req)
      → (post_event fresh r (some req) m w).response.status ≡ 202
      → let a = post_event fresh r (some req) m w in
        (a.response_trace ≢ [])
        × (a.metrics.events_received ≡ suc m.events_received)
        × ((collect_batch decode (received offset (flat a.writes))).events
            ≡ record (message_of req) { payload = rewrite req.payload; trace_id = a.response_trace }
              ∷ [])
  unfolding message_of
  post_event-received decode rewrite fresh r req m w offset filled codec good =
      let a = post_event fresh r (some req) m w in
      let (taken, same, counted) = accepted fresh r req m w good in
      let trip =
        publish-collect_batch encode write decode rewrite ((a.response_trace, message_of req) ∷ [])
          offset (codec, tt) (taken, tt) in
      let read = λ (ms : List Outgoing). (collect_batch decode (received offset ms)).events in
      (
        trace-filled fresh r (some req) m w filled,
        counted,
        ap (λ ws. read (flat ws)) same
            ∙ ap read
                (sym (append-nil (flat (publish encode write a.response_trace (message_of req)).1)))
            ∙ trip,
      )
