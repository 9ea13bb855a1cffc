-- ===== src/Kafka/Producer/RoundTrip.antt =====
-- internal/kafka/producer.go and consumer.go: what `Publish` writes, the consumer reads.
use mathlib.Core.Path.{ap₂}
use webhook_service.Prelude.{
  ℕ, suc, ◌≡◌, refl, ap, ◌∙◌, Bool, Option, none, some, List, [], ◌∷◌, ◌++◌, map, All, GoString,
  lit, str_eq_refl, arith,
}
use webhook_service.Kafka.Message.{EventMessage}
use webhook_service.Kafka.Consumer.{
  Message, Fetch, fetched, with_trace, collect_batch, trace_id_header,
}
use webhook_service.Kafka.Producer.{Outgoing, publish, publish_encoded, trace_headers}

-- An event and the trace id of the context in which it is published.
abbrev pub Publication : Type 0
Publication = GoString × EventMessage

-- The messages that the calls gave to the writer, in order.
abbrev pub flat : List (List Outgoing) → List Outgoing
flat [] = []
flat (ms ∷ more) = ms ++ flat more

module _ (encode : EventMessage → Option GoString) (write : List Outgoing → Bool) where
  abbrev pub sent : List Publication → List Outgoing
  sent [] = []
  sent ((trace, event) ∷ ps) = flat (publish encode write trace event).1 ++ sent ps

-- The fetches that deliver them, from an offset on.
abbrev pub received : ℕ → List Outgoing → List Fetch
received offset [] = []
received offset (m ∷ ms) =
    fetched (record { partition = 0; offset = offset; value = m.value; headers = m.headers })
    ∷ received (suc offset) ms

-- What is read of a publication: its payload rewritten, and its trace id.
abbrev pub traced : (GoString → GoString) → Publication → EventMessage
traced rewrite (trace, event) = record event { payload = rewrite event.payload; trace_id = trace }

with_trace-trace_headers :
    (trace : GoString) (event : EventMessage)
    → with_trace (trace_headers trace) (record event { trace_id = lit "" })
      ≡ record event { trace_id = trace }
unfolding with_trace
with_trace-trace_headers [] event = refl
with_trace-trace_headers (c ∷ trace) event = rw (str_eq_refl trace_id_header) refl

events-fetched :
    (decode : GoString → Option EventMessage) (m : Message) (fs : List Fetch) {event : EventMessage}
    → decode m.value ≡ some event
    → (collect_batch decode (fetched m ∷ fs)).events
      ≡ with_trace m.headers event ∷ (collect_batch decode fs).events
unfolding collect_batch
events-fetched decode m fs e = ground (arith, e)

module _ (encode : EventMessage → Option GoString) (write : List Outgoing → Bool) where
  publish_encoded-ok :
      (trace : GoString) (event : EventMessage) (o : Option GoString)
      → (publish_encoded write trace event o).0 ≡ none
      → (value : GoString) × (o ≡ some value)
        × (flat (publish_encoded write trace event o).1
            ≡ record { key = event.id; value = value; headers = trace_headers trace } ∷ [])
  publish_encoded-ok trace event none h = absurd (cc)
  publish_encoded-ok trace event (some value) h = (value, refl, refl)

  -- The decoder takes back what the encoder made of an event, which lacks the trace id, with the
  -- payload in the form that encoding/json writes: `json.Marshal` compacts the text of a
  -- `json.RawMessage`, escapes `<`, `>` and `&` in it, and writes `null` where there is none.
  abbrev pub Decodes :
      (GoString → Option EventMessage) → (GoString → GoString) → EventMessage → Type 0
  Decodes decode rewrite event =
      (value : GoString)
      → encode event ≡ some value
      → decode value ≡ some (record event { payload = rewrite event.payload; trace_id = lit "" })

  -- Events that are published one by one without an error, by whatever requests, and whose encodings
  -- can be decoded, come out of the consumer in their order, each with the trace id of its request and
  -- with its payload rewritten.
  pub publish-collect_batch :
      (decode : GoString → Option EventMessage) (rewrite : GoString → GoString)
      (ps : List Publication) (offset : ℕ)
      → All (λ (p : Publication). Decodes decode rewrite p.1) ps
      → All (λ (p : Publication). (publish encode write p.0 p.1).0 ≡ none) ps
      → (collect_batch decode (received offset (sent encode write ps))).events
        ≡ map (traced rewrite) ps
  unfolding publish collect_batch
  publish-collect_batch decode rewrite [] offset codec h = refl
  publish-collect_batch decode rewrite ((trace, event) ∷ ps) offset codec h =
      let (value, encoded, messages) = publish_encoded-ok trace event (encode event) h.0 in
      let rest = publish-collect_batch decode rewrite ps (suc offset) codec.1 h.1 in
      ap (λ ms. (collect_batch decode (received offset (ms ++ sent encode write ps))).events)
        messages
      ∙ events-fetched decode _ (received (suc offset) (sent encode write ps))
          (codec.0 value encoded)
      ∙ ap₂ ◌∷◌ (with_trace-trace_headers trace (record event { payload = rewrite event.payload }))
          rest
