-- ===== src/Resilience/RedisRateLimiter/Collision.antt =====
-- internal/resilience/redis_ratelimiter.go: the member names a call by its millisecond and by a counter
-- that each instance has for itself, so that two instances can use the same member.
use webhook_service.Prelude.{
  ℕ, zero, suc, ◌≤◌, ◌<◌, ◌≡◌, refl, sym, ap, ◌∙◌, subst, ◌⊎◌, inl, inr, true, false, List, [], ◌∷◌,
  arith, length,
}
use webhook_service.Prelude.Int.{pos, ◌-ℤ◌, ltb_ℤ}
use webhook_service.Resilience.RedisRateLimiter.{
  SortedSets, Member, Entry, put, sliding_window_script,
}
use webhook_service.Resilience.RedisRateLimiter.Calls.{Call, run, fresh}
use webhook_service.Resilience.RedisRateLimiter.Held.{kept, same_member_refl}
use webhook_service.Resilience.RedisRateLimiter.Window.{entries-kept}

-- Calls of as many instances, at the same millisecond and with the same counter.
abbrev pub collision : ℕ → Member → ℕ → List Call
collision now m zero = []
collision now m (suc n) = record { now = now; member = m; expired = false } ∷ collision now m n

module _ (R : SortedSets) (window limit : ℕ) (now : ℕ) (m : Member) where
  -- The set holds one entry at most.
  abbrev Lone : List Entry → Type 0
  Lone es = (es ≡ []) ⊎ (es ≡ (m, now) ∷ [])

  kept-Lone : 0 < window → (es : List Entry) → Lone es → Lone (kept window now es)
  kept-Lone h es (inl e) = rw e (inl refl)
  kept-Lone h es (inr e) = rw (e, fresh_now h) (inr refl)
    where
      fresh_now : 0 < window → fresh window now now ≡ true
      fresh_now k = ground (arith, k)

  put-Lone : (es : List Entry) → Lone es → put m now es ≡ (m, now) ∷ []
  put-Lone es (inl e) = rw e refl
  put-Lone es (inr e) = rw (e, same_member_refl m) refl

  length-Lone : (es : List Entry) → Lone es → length es ≤ 1
  length-Lone es (inl e) = rw e (omega arith)
  length-Lone es (inr e) = rw e (omega arith)

  admitted : (n : ℕ) → n ≤ 1 → ltb_ℤ (pos n) (pos (suc (suc limit))) ≡ true
  admitted n h = ground (arith, h)

  script-Lone :
      (s : R.Set)
      → 0 < window
      → Lone (R.entries s)
      → let r = sliding_window_script R now (pos window) (pos (suc (suc limit))) m s in
        (r.0 ≡ true) × Lone (R.entries r.1)
  unfolding sliding_window_script
  script-Lone s h lone =
      let left = R.zremrangebyscore (pos 0) (pos now -ℤ pos window) s in
      let same = entries-kept R window (suc (suc limit)) now s in
      let still = kept-Lone h (R.entries s) lone in
      let room =
        admitted (R.zcard left) (
          subst (λ k. k ≤ 1) (sym (R.zcard_entries left ∙ ap length same)) (length-Lone _ still)) in
      rw room (
        refl,
        inr (
            R.entries-pexpire _ _
            ∙ R.entries-zadd now m left
            ∙ ap (put m now) same
            ∙ put-Lone _ still),
      )

  run-Lone :
      (n : ℕ)
      → 0 < window
      → Lone (R.entries (run R window (suc (suc limit)) (collision now m n)).0)
        × (length (run R window (suc (suc limit)) (collision now m n)).1 ≡ n)
  unfolding run
  run-Lone zero h = (inl R.entries-empty, refl)
  run-Lone (suc n) h =
      let (lone, all) = run-Lone n h in
      let r = script-Lone (run R window (suc (suc limit)) (collision now m n)).0 h lone in
      (r.1, rw r.0 (ap suc all))

  -- Calls of any number of instances at the same millisecond and with the same counter are all
  -- admitted, whatever the limit from two on: each but the first replaces the entry of the one before.
  pub run-collision :
      (n : ℕ) → 0 < window → length (run R window (suc (suc limit)) (collision now m n)).1 ≡ n
  run-collision n h = (run-Lone n h).1
