-- ===== src/Domain/Subscription/Matching.antt =====
-- The documented meaning of an event filter (docs/spec.md): a filter is the event type itself or a
-- prefix of it followed by `*`.
use webhook_service.Prelude.{
  ℕ, zero, suc, ◌-◌, ◌≤◌, ◌≡◌, refl, sym, ap, ◌∙◌, ◌↔◌, inl, inr, Bool, true, ◌||◌, ◌&&◌, List, [],
  ◌∷◌, ◌++◌, arith, GoString, str_eq, str_eq_iff, str_eq_refl, leb, ◌==◌, length, take, Any,
  Bool-cases, and-true, ==_iff,
}
use webhook_service.Domain.Subscription.{
  Subscription, last_byte, match_wildcard, matches_any, matches_event_type,
}

pub data Accepts (t e : GoString) : Type 0 where
  exactly : t ≡ e → Accepts t e
  prefix : (p rest : GoString) → t ≡ p ++ (b'*' ∷ []) → e ≡ p ++ rest → Accepts t e

abbrev drop : ℕ → GoString → GoString
drop zero s = s
drop (suc n) [] = []
drop (suc n) (c ∷ s) = drop n s

take-append-drop : (n : ℕ) (s : GoString) → take n s ++ drop n s ≡ s
take-append-drop zero s = refl
take-append-drop (suc n) [] = refl
take-append-drop (suc n) (c ∷ s) = ap (◌∷◌ c) (take-append-drop n s)

take-append : (p s : GoString) → take (length p) (p ++ s) ≡ p
take-append [] s = refl
take-append (c ∷ p) s = ap (◌∷◌ c) (take-append p s)

length-le-append : (p s : GoString) → length p ≤ length (p ++ s)
length-le-append [] s = omega arith
length-le-append (c ∷ p) s = omega (arith, length-le-append p s)

-- A text is its start followed by its last byte.
init_last : (c : ℕ) (s : GoString) → c ∷ s ≡ take (length s) (c ∷ s) ++ (last_byte c s ∷ [])
init_last c [] = refl
init_last c (d ∷ s) = ap (◌∷◌ c) (init_last d s)

last_byte-append : (c x : ℕ) (p : GoString) → last_byte c (p ++ (x ∷ [])) ≡ x
last_byte-append c x [] = refl
last_byte-append c x (d ∷ p) = last_byte-append d x p

length-snoc : (x : ℕ) (p : GoString) → length (p ++ (x ∷ [])) ≡ suc (length p)
length-snoc x [] = refl
length-snoc x (c ∷ p) = ap suc (length-snoc x p)

suc-sub-one : (n : ℕ) → suc n - 1 ≡ n
suc-sub-one n = omega arith

-- The prefix test of the code.
abbrev has_prefix : GoString → GoString → Bool
has_prefix p e = leb (length p) (length e) && str_eq (take (length p) e) p

has_prefix_sound : (p e : GoString) → has_prefix p e ≡ true → e ≡ p ++ drop (length p) e
has_prefix_sound p e h =
    let same =
      (str_eq_iff (take (length p) e) p).0
        (and-true (leb (length p) (length e)) (str_eq (take (length p) e) p) h).1 in
    sym (take-append-drop (length p) e) ∙ ap (λ s. s ++ drop (length p) e) same

has_prefix_complete : (p rest : GoString) → has_prefix p (p ++ rest) ≡ true
has_prefix_complete p rest =
    rw (take-append p rest) (ground (arith, length-le-append p rest, str_eq_refl p))

-- What the code takes for the prefix, of a filter that ends in `*`.
abbrev stem : ℕ → GoString → GoString
stem c s = take (length {A = ℕ} (c ∷ s) - 1) (c ∷ s)

stem_star : (c : ℕ) (s : GoString) → last_byte c s ≡ b'*' → c ∷ s ≡ stem c s ++ (b'*' ∷ [])
stem_star c s e =
    rw (suc-sub-one (length s)) (init_last c s ∙ ap (λ x. take (length s) (c ∷ s) ++ (x ∷ [])) e)

match_wildcard-Accepts : (t e : GoString) → match_wildcard t e ≡ true → Accepts t e
unfolding match_wildcard
match_wildcard-Accepts [] [] h = exactly refl
match_wildcard-Accepts [] (c ∷ e) h = absurd (ground arith)
match_wildcard-Accepts (c ∷ s) e h = elim (Bool-cases (last_byte c s == b'*')) [
  | inl star ↦
      prefix (stem c s) (drop (length (stem c s)) e) (stem_star c s ((==_iff _ _).0 star))
        (has_prefix_sound (stem c s) e (rw star at h))
  | inr plain ↦ exactly ((str_eq_iff (c ∷ s) e).0 (rw plain at h))
]

match_wildcard_star :
    (c : ℕ) (s e : GoString)
    → last_byte c s ≡ b'*'
    → match_wildcard (c ∷ s) e ≡ has_prefix (stem c s) e
unfolding match_wildcard
match_wildcard_star c s e h = rw ((==_iff (last_byte c s) b'*').1 h)

stem-snoc : (c : ℕ) (p : GoString) → stem c (p ++ (b'*' ∷ [])) ≡ c ∷ p
stem-snoc c p =
    rw (suc-sub-one (length (p ++ (b'*' ∷ []))))
      (rw (length-snoc b'*' p) (take-append (c ∷ p) (b'*' ∷ [])))

match_wildcard-prefix : (p rest : GoString) → match_wildcard (p ++ (b'*' ∷ [])) (p ++ rest) ≡ true
match_wildcard-prefix [] rest = match_wildcard_star b'*' [] rest refl ∙ has_prefix_complete [] rest
match_wildcard-prefix (c ∷ p) rest =
    match_wildcard_star c (p ++ (b'*' ∷ [])) (c ∷ (p ++ rest)) (last_byte-append c b'*' p)
    ∙ ap (λ (q : GoString). has_prefix q (c ∷ (p ++ rest))) (stem-snoc c p)
    ∙ has_prefix_complete (c ∷ p) rest

-- One filter, as the loop tests it.
abbrev test_filter : GoString → GoString → Bool
test_filter t e = str_eq t (b'*' ∷ []) || str_eq t e || match_wildcard t e

test_filter-Accepts : (t e : GoString) → test_filter t e ≡ true → Accepts t e
test_filter-Accepts t e h = elim (Bool-cases (str_eq t (b'*' ∷ []))) [
  | inl star ↦ prefix [] e ((str_eq_iff t (b'*' ∷ [])).0 star) refl
  | inr not_star ↦ elim (Bool-cases (str_eq t e)) [
    | inl same ↦ exactly ((str_eq_iff t e).0 same)
    | inr other ↦ match_wildcard-Accepts t e (ground arith)
  ]
]

Accepts-test_filter : (t e : GoString) → Accepts t e → test_filter t e ≡ true
Accepts-test_filter t e (exactly h) = ground (arith, (str_eq_iff t e).1 h)
Accepts-test_filter t e (prefix p rest ht he) =
    let m : match_wildcard t e ≡ true = rw (ht, he) (match_wildcard-prefix p rest) in ground arith

matches_any-cons :
    (t : GoString) (ts : List GoString) (e : GoString)
    → matches_any (t ∷ ts) e ≡ test_filter t e || matches_any ts e
unfolding matches_any
matches_any-cons t ts e = ground arith

matches_any-Any :
    (ts : List GoString) (e : GoString) → matches_any ts e ≡ true → Any (λ t. Accepts t e) ts
matches_any-Any [] e h = absurd (unfold matches_any in cc)
matches_any-Any (t ∷ ts) e h = elim (Bool-cases (test_filter t e)) [
  | inl now ↦ inl (test_filter-Accepts t e now)
  | inr not_now ↦ inr (matches_any-Any ts e (ground (arith, matches_any-cons t ts e)))
]

Any-matches_any :
    (ts : List GoString) (e : GoString) → Any (λ t. Accepts t e) ts → matches_any ts e ≡ true
Any-matches_any [] e h = absurd h
Any-matches_any (t ∷ ts) e (inl h) =
    ground (arith, matches_any-cons t ts e, Accepts-test_filter t e h)
Any-matches_any (t ∷ ts) e (inr h) = ground (arith, matches_any-cons t ts e, Any-matches_any ts e h)

-- A subscription matches an event type exactly when one of its filters is the type itself, or is a
-- prefix of the type followed by `*`.
pub matches_event_type_iff :
    (s : Subscription) (e : GoString)
    → (matches_event_type s e ≡ true) ↔ Any (λ t. Accepts t e) s.event_types
unfolding matches_event_type
matches_event_type_iff s e = (matches_any-Any s.event_types e, Any-matches_any s.event_types e)
