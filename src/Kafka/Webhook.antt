-- ===== src/Kafka/Webhook.antt =====
-- internal/kafka/webhook.go: one HTTP attempt, and which status codes are worth another.
use webhook_service.Prelude.{
  ℕ, Bool, ◌&&◌, Option, none, some, List, [], ◌∷◌, ◌++◌, GoString, lit, is_empty, take,
  if◌then◌else◌, ◌⊎◌, inl, inr, exists,
}
use webhook_service.Prelude.Int.{ℤ, pos, leb_ℤ, ltb_ℤ, int_eq}
use webhook_service.Domain.Event.{Time}
use webhook_service.Domain.Subscription.{Subscription}
use webhook_service.Repository.World.{Environment, ok, Action, ◌>>=◌, pure, advance, time_now}
use webhook_service.Kafka.Message.{EventMessage}
use webhook_service.Kafka.Signature.{sign_webhook_payload}

-- The request as it is sent: the optional headers are `none` where they are not set.
pub record Request : Type 0 where
  pub url : GoString
  pub body : GoString
  pub event_id : GoString
  pub event_type : GoString
  pub trace : Option GoString
  pub timestamp : Option GoString
  pub signature : Option GoString

-- The response; `first_read` is what one `Read` of the body delivers.
pub record Response : Type 0 where
  pub status_code : ℤ
  pub first_read : GoString

-- What the Go library and the network do; `inr` is the text of an error. `marshal` writes the JSON
-- object of the id, the type, the source and the data of an event.
pub record Client : Type 0 where
  pub marshal : GoString → GoString → GoString → GoString → GoString ⊎ GoString
  pub url_error : GoString → Option GoString
  pub mac : GoString → GoString → GoString
  pub hex : GoString → GoString
  pub unix : Time → ℤ
  pub format_int : ℤ → GoString
  pub respond : ℕ → Request → Response ⊎ GoString

-- What `deliverWebhook` returns: the status code, the start of the body, and the error's text.
pub record Reply : Type 0 where
  pub status_code : Option ℤ
  pub body : GoString
  pub error : Option GoString

abbrev failed_reply : GoString → Reply
failed_reply text = record { status_code = none; body = lit ""; error = some text }

-- A text that is set if it is not empty.
abbrev pub non_empty : GoString → Option GoString
non_empty s = if is_empty s then none else some s

-- `sub.Secret != nil && *sub.Secret != ""`.
abbrev pub signing_secret : Subscription → Option GoString
signing_secret sub = elim sub.secret [ none ↦ none | some s ↦ non_empty s ]

-- The headers that the signature needs, at the instant of signing.
unfoldable pub signed_request : Client → GoString → Time → GoString → Request → Request
signed_request c payload now secret r =
    let timestamp = c.format_int (c.unix now) in
    record r {
      timestamp = some timestamp;
      signature = some (sign_webhook_payload c.mac c.hex payload secret timestamp);
    }

unfoldable pub base_request : GoString → GoString → Subscription → EventMessage → Request
base_request trace payload sub event = record {
  url = sub.url;
  body = payload;
  event_id = event.id;
  event_type = event.type;
  trace = non_empty trace;
  timestamp = none;
  signature = none;
}

-- The request, with the clock read only where there is a secret.
unfoldable pub build_request :
    Environment → Client → GoString → GoString → Subscription → EventMessage → Action Request
unfolding base_request signed_request
build_request env c trace payload sub event = elim (signing_secret sub) [
  | none ↦ pure (base_request trace payload sub event)
  | some secret ↦ do
    now ← time_now env
    pure (signed_request c payload now secret (base_request trace payload sub event))
]

-- 2xx.
abbrev pub is_success : ℤ → Bool
is_success code = leb_ℤ (pos 200) code && ltb_ℤ code (pos 300)

-- What is made of the answer of `httpClient.Do`.
unfoldable pub read_reply : Client → Response ⊎ GoString → Reply
read_reply c (inr text) = failed_reply (lit "http request: " ++ text)
read_reply c (inl r) = record {
  status_code = some r.status_code;
  body = take 1024 r.first_read;
  error =
      if is_success r.status_code
      then none
      else some (lit "non-2xx status: " ++ c.format_int r.status_code);
}

abbrev send : Client → Request → Action (Response ⊎ GoString)
send c r w = (ok (c.respond w.tick r), advance w)

unfoldable pub deliver_webhook :
    Environment → Client → GoString → Subscription → EventMessage → Action Reply
unfolding build_request read_reply
deliver_webhook env c trace sub event =
    elim (c.marshal event.id event.type event.source event.payload) [
      | inr text ↦ pure (failed_reply (lit "marshal payload: " ++ text))
      | inl payload ↦ elim (c.url_error sub.url) [
        | some text ↦ pure (failed_reply (lit "create request: " ++ text))
        | none ↦ do
          r ← build_request env c trace payload sub event
          answer ← send c r
          pure (read_reply c answer)
      ]
    ]

abbrev pub is_one_of_codes : List ℤ → ℤ → Bool
is_one_of_codes codes code = exists (λ c. int_eq code c) codes

unfoldable pub is_permanent_failure : ℤ → Bool
is_permanent_failure = is_one_of_codes (
    pos 400
    ∷ pos 401
    ∷ pos 403
    ∷ pos 404
    ∷ pos 405
    ∷ pos 406
    ∷ pos 410
    ∷ pos 411
    ∷ pos 413
    ∷ pos 414
    ∷ pos 415
    ∷ pos 422
    ∷ pos 426
    ∷ pos 431
    ∷ [])

unfoldable pub is_retryable_failure : ℤ → Bool
is_retryable_failure =
    is_one_of_codes (pos 408 ∷ pos 429 ∷ pos 500 ∷ pos 502 ∷ pos 503 ∷ pos 504 ∷ [])
