-- ===== src/App/Resources.antt =====
-- internal/app: what a service holds while it runs, and how its start takes and returns it. Each thing
-- that is opened has a number of its own, so that closing it twice closes nothing else.
use webhook_service.Prelude.{
  ℕ, suc, ◌<◌, ◌≤◌, ◌≡◌, refl, not, List, [], ◌∷◌, All, select, ◌==◌, arith, Option, none, some,
}

-- `listener` stands for an HTTP server with its listener, `consumer` for the Kafka reader with its loop,
-- `poller` and `cleaner` for their loops, and `context` for a context that is not cancelled yet.
pub data Resource : Type 0 where
  pool producer redis_client listener consumer poller cleaner context : Resource

-- `next` is above every number that was given.
pub record Handles : Type 0 where
  pub next : ℕ
  pub held : List (ℕ × Resource)

-- Why a start fails.
pub data StartError : Type 0 where
  invalid_config bad_database_url no_pool no_database no_listener : StartError

pub data Started (A : Type 0) : Type 0 where
  running : A → Started A
  refused : StartError → Started A

abbrev pub Boot : Type 0 → Type 0
Boot A = Handles → Started A × Handles

abbrev continue_with : {A B : Type 0} → Started A × Handles → (A → Boot B) → Started B × Handles
continue_with (running a, h) k = k a h
continue_with (refused e, h) k = (refused e, h)

infixl 10 ◌>>=◌ ◌>>◌
abbrev pub ◌>>=◌ : {A B : Type 0} → Boot A → (A → Boot B) → Boot B
(m >>= k) h = continue_with (m h) k

abbrev pub ◌>>◌ : {A B : Type 0} → Boot A → Boot B → Boot B
m >> k = m >>= λ _. k

abbrev pub pure : {A : Type 0} → A → Boot A
pure a h = (running a, h)

abbrev pub refuse : {A : Type 0} → StartError → Boot A
refuse e h = (refused e, h)

abbrev pub acquire : Resource → Boot ℕ
acquire r h = (running h.next, record { next = suc h.next; held = (h.next, r) ∷ h.held })

abbrev pub without : ℕ → List (ℕ × Resource) → List (ℕ × Resource)
without n held = select (λ (x : ℕ × Resource). not (x.0 == n)) held

-- Closing what is closed already changes nothing.
unfoldable pub release : ℕ → Handles → Handles
release n h = record h { held = without n h.held }

abbrev pub release_any : Option ℕ → Handles → Handles
release_any none h = h
release_any (some n) h = release n h

abbrev pub close : ℕ → Boot (Unit {0})
close n h = (running tt, release n h)

abbrev pub close_any : Option ℕ → Boot (Unit {0})
close_any n h = (running tt, release_any n h)

-- Every number that is held was given before `n`.
abbrev pub Below : ℕ → List (ℕ × Resource) → Type 0
Below n held = All (λ (x : ℕ × Resource). x.0 < n) held

pub Below-suc : (n : ℕ) (held : List (ℕ × Resource)) → Below n held → Below (suc n) held
Below-suc n [] b = tt
Below-suc n (x ∷ held) (lt, b) = (omega (arith, lt), Below-suc n held b)

pub without-Below : (n m : ℕ) (held : List (ℕ × Resource)) → Below n held → Below n (without m held)
without-Below n m [] b = tt
without-Below n m (x ∷ held) (lt, b) = ground (arith, without-Below n m held b)

-- A number that was not given yet is not held.
pub without-fresh :
    (n m : ℕ) (held : List (ℕ × Resource)) → Below n held → n ≤ m → without m held ≡ held
without-fresh n m [] b le = refl
without-fresh n m (x ∷ held) (lt, b) le = ground (arith, without-fresh n m held b le)
