-- ===== src/Resilience/RateLimiterManager/Isolation.antt =====
-- internal/resilience/ratelimiter.go: each subscription has a limiter of its own, at the rate of its
-- policy.
use webhook_service.Prelude.{
  ◌≡◌, refl, ap, ◌∙◌, false, some, [], ◌∷◌, GoString, str_eq, str_eq_iff, str_eq_refl, Bool-cases,
  inl, inr, Option-cases,
}
use webhook_service.Domain.Event.{Time}
use webhook_service.Domain.Subscription.{RatePolicy}
use webhook_service.Resilience.RateLimiterManager.{
  RateLimiters, Limiters, lookup, set, get_limiter, set_rate_if_changed, wait, policy_rate,
  allow_with_policy, allow,
}

module _ (L : RateLimiters) where
  lookup-set :
      (id : GoString) (l : L.Limiter) (m : Limiters L) → lookup L id (set L id l m) ≡ some l
  unfolding lookup set
  lookup-set id l [] = rw (str_eq_refl id) refl
  lookup-set id l ((i, k) ∷ m) = elim (Bool-cases (str_eq i id)) [
    | inl same ↦ rw same (rw same refl)
    | inr other ↦ rw other (rw other (lookup-set id l m))
  ]

  lookup-set_other :
      (id other : GoString) (l : L.Limiter) (m : Limiters L)
      → str_eq id other ≡ false
      → lookup L other (set L id l m) ≡ lookup L other m
  unfolding lookup set
  lookup-set_other id other l [] h = rw h refl
  lookup-set_other id other l ((i, k) ∷ m) h = elim (Bool-cases (str_eq i id)) [
    | inl same ↦ rw same (rw (ap (λ x. str_eq x other) ((str_eq_iff i id).0 same) ∙ h) refl)
    | inr differs ↦ rw differs (rw (lookup-set_other id other l m h) refl)
  ]

  -- An operation for one subscription leaves the limiters of the others alone, and leaves this one with
  -- a limiter at the rate.
  pub record Touches (id : GoString) (r : L.Rate) (m m' : Limiters L) : Type 0 where
    pub others : (other : GoString) → str_eq id other ≡ false → lookup L other m' ≡ lookup L other m
    pub own : (l : L.Limiter) × (lookup L id m' ≡ some l) × (L.limit l ≡ r)

  set-Touches :
      (id : GoString) (r : L.Rate) (l : L.Limiter) (m m' : Limiters L)
      → L.limit l ≡ r
      → ((other : GoString) → str_eq id other ≡ false → lookup L other m' ≡ lookup L other m)
      → Touches id r m (set L id l m')
  set-Touches id r l m m' e f = record {
    others = λ other h. lookup-set_other id other l m' h ∙ f other h;
    own = (l, lookup-set id l m', e);
  }

  fresh-Touches :
      (id : GoString) (r : L.Rate) (m : Limiters L) → Touches id r m (set L id (L.new_limiter r) m)
  fresh-Touches id r m = set-Touches id r _ m m (L.limit-new_limiter r) (λ _ _. refl)

  set_rate_if_changed-Touches :
      (id : GoString) (r : L.Rate) (m : Limiters L) → Touches id r m (set_rate_if_changed L id r m)
  unfolding set_rate_if_changed
  set_rate_if_changed-Touches id r m = elim (Option-cases (lookup L id m)) [
    | inl missing ↦ rw (set_rate_if_changed, missing) (fresh-Touches id r m)
    | inr (l, e) ↦
        rw (set_rate_if_changed, e)
          (elim (Bool-cases (L.same_rate (L.limit l) r)) [
            | inl same ↦
                rw same
                  (record { others = λ _ _. refl; own = (l, e, L.same_rate_eq (L.limit l) r same) })
            | inr changed ↦ rw changed (fresh-Touches id r m)
          ])
  ]

  get_limiter-found :
      (config : L.Rate) (id : GoString) (l : L.Limiter) (m : Limiters L)
      → lookup L id m ≡ some l
      → get_limiter L config id m ≡ (l, m)
  unfolding get_limiter
  get_limiter-found config id l m e = rw (get_limiter, e) refl

  wait-Touches :
      (config : L.Rate) (now : Time) (id : GoString) (r : L.Rate) (m m' : Limiters L)
      → Touches id r m m'
      → Touches id r m (wait L config now id m').1
  unfolding wait
  wait-Touches config now id r m m' t =
      let (l, found, rate) = t.own in
      rw (get_limiter-found config id l m' found)
        (set-Touches id r _ m m' (L.limit-delay now l ∙ rate) t.others)

  -- A question about one subscription leaves the limiters of all others as they are, and this one with a
  -- limiter at the rate of its policy.
  pub allow-Touches :
      (config : L.Rate) (now later : Time) (id : GoString) (policy : RatePolicy) (m : Limiters L)
      → Touches id (L.rate_of (policy_rate L policy)) m (allow L config now later id policy m).1
  unfolding allow allow_with_policy
  allow-Touches config now later id policy m =
      let r = L.rate_of (policy_rate L policy) in
      let t = set_rate_if_changed-Touches id r m in
      let (l, found, rate) = t.own in
      let asked =
        set-Touches id r (L.allow now l).1 m (set_rate_if_changed L id r m)
          (L.limit-allow now l ∙ rate) t.others in
      rw (get_limiter-found config id l (set_rate_if_changed L id r m) found)
        (elim (Bool-cases (L.allow now l).0) [
          | inl good ↦ rw good asked
          | inr denied ↦ rw denied (wait-Touches config later id r m _ asked)
        ])
