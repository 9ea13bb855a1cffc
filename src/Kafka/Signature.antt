-- ===== src/Kafka/Signature.antt =====
-- internal/kafka/signature.go. HMAC-SHA256 and the hexadecimal digits are functions of the Go
-- library and stay parameters.
use webhook_service.Prelude.{◌≡◌, ◌≢◌, refl, [], ◌∷◌, ◌++◌, GoString, lit, All}

abbrev pub webhook_signature_version : GoString
webhook_signature_version = lit "v1="

-- What `mac.Write` is given, in order.
unfoldable pub signed_message : GoString → GoString → GoString
signed_message payload timestamp = timestamp ++ (b'.' ∷ payload)

-- `mac` is the digest of a message under a key, `hex` its digits.
unfoldable pub sign_webhook_payload :
    (GoString → GoString → GoString)
    → (GoString → GoString)
    → GoString
    → GoString
    → GoString
    → GoString
sign_webhook_payload mac hex payload secret timestamp =
    webhook_signature_version ++ hex (mac secret (signed_message payload timestamp))

-- No byte of the text is a full stop.
abbrev pub NoStop : GoString → Type 0
NoStop s = All (λ c. c ≢ b'.') s

split_at_stop :
    (t t' p p' : GoString)
    → NoStop t
    → NoStop t'
    → t ++ (b'.' ∷ p) ≡ t' ++ (b'.' ∷ p')
    → (t ≡ t') × (p ≡ p')
split_at_stop [] [] p p' h h' e = (refl, cc)
split_at_stop [] (c ∷ t') p p' h h' e = absurd (h'.0 (cc))
split_at_stop (c ∷ t) [] p p' h h' e = absurd (h.0 (cc))
split_at_stop (c ∷ t) (d ∷ t') p p' h h' e =
    let r = split_at_stop t t' p p' h.1 h'.1 (cc) in let q : c ≡ d = cc in (cc (r.0, q), r.1)

-- The signed text determines the timestamp and the body, since a timestamp holds no full stop: equal
-- signatures under one secret are of equal timestamps and equal bodies, unless the digests of the
-- two signed texts collide.
pub sign_webhook_payload-injective :
    (mac : GoString → GoString → GoString) (hex : GoString → GoString)
    (secret payload payload' timestamp timestamp' : GoString)
    → (hex (mac secret (signed_message payload timestamp))
          ≡ hex (mac secret (signed_message payload' timestamp'))
        → signed_message payload timestamp ≡ signed_message payload' timestamp')
    → NoStop timestamp
    → NoStop timestamp'
    → sign_webhook_payload mac hex payload secret timestamp
      ≡ sign_webhook_payload mac hex payload' secret timestamp'
    → (timestamp ≡ timestamp') × (payload ≡ payload')
unfolding sign_webhook_payload signed_message
sign_webhook_payload-injective mac hex secret p p' t t' no_collision h h' e =
    split_at_stop t t' p p' h h' (no_collision (cc))
