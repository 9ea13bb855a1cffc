-- ===== src/Resilience/RedisRateLimiter/Window.antt =====
-- internal/resilience/redis_ratelimiter.go: how many calls the script admits in a window.
use webhook_service.Prelude.{
  ℕ, ◌+◌, ◌≤◌, ◌<◌, ◌≡◌, refl, sym, ap, ◌∙◌, subst, Bool, true, false, List, [], ◌∷◌, arith, length,
  exists, count_where, select-ext, Bool-cases, inl, inr, if◌then◌else◌,
}
use webhook_service.Prelude.Int.{pos, ◌-ℤ◌, ltb_ℤ}
use webhook_service.Resilience.RedisRateLimiter.{
  SortedSets, Entry, same_member, put, sliding_window_script,
}
use webhook_service.Resilience.RedisRateLimiter.Calls.{
  Call, fresh, in_window, last_call, Orderly, run,
}
use webhook_service.Resilience.RedisRateLimiter.Held.{
  kept-fresh, Held, kept, refused-Held, admitted-Held, later-Held, expired-Held,
}

below : {a b limit : ℕ} → a ≡ b → ltb_ℤ (pos a) (pos limit) ≡ true → b < limit
below e h = ground (arith, e, h)

module _ (R : SortedSets) (window limit : ℕ) where
  pub entries-kept :
      (now : ℕ) (s : R.Set)
      → R.entries (R.zremrangebyscore (pos 0) (pos now -ℤ pos window) s)
        ≡ kept window now (R.entries s)
  entries-kept now s =
      R.entries-zremrangebyscore (pos 0) (pos now -ℤ pos window) s
      ∙ select-ext _ (λ (e : Entry). fresh window now e.1) (R.entries s) (kept-fresh window now)

  -- One call.
  script-Held :
      (c : Call) (cs : List Call) (s : R.Set) (admitted : List ℕ)
      → exists (λ (d : Call). same_member d.member c.member) cs ≡ false
      → Held window limit c.now cs (R.entries s) admitted
      → let r = sliding_window_script R c.now (pos window) (pos limit) c.member s in
        Held window limit c.now
          (c ∷ cs)
          (R.entries r.1)
          (if r.0 then c.now ∷ admitted else admitted)
  unfolding sliding_window_script
  script-Held c cs s admitted unused h =
      let left = R.zremrangebyscore (pos 0) (pos c.now -ℤ pos window) s in
      let same = entries-kept c.now s in
      let size = R.zcard_entries left ∙ ap length same in
      elim (Bool-cases (ltb_ℤ (pos (R.zcard left)) (pos limit))) [
        | inl room ↦ rw room (
            subst (λ es. Held window limit c.now (c ∷ cs) es (c.now ∷ admitted))
              (sym (
                R.entries-pexpire _ _
                ∙ R.entries-zadd c.now c.member left
                ∙ ap (put c.member c.now) same))
              (admitted-Held window limit c.now c cs (R.entries s) admitted unused (below size room)
                h))
        | inr full ↦ rw full (
            subst (λ es. Held window limit c.now (c ∷ cs) es admitted)
              (sym (R.entries-pexpire _ _ ∙ same))
              (refused-Held window limit c.now c cs (R.entries s) admitted h))
      ]

  arrived-Held :
      (expired : Bool) (last now : ℕ) (cs : List Call) (s : R.Set) (admitted : List ℕ)
      → last ≤ now
      → (expired ≡ true → last + window ≤ now)
      → Held window limit last cs (R.entries s) admitted
      → Held window limit now cs (R.entries (if expired then R.empty else s)) admitted
  arrived-Held true last now cs s admitted late expiry h =
      rw R.entries-empty
        (expired-Held window limit last now cs (R.entries s) admitted (expiry refl) h)
  arrived-Held false last now cs s admitted late expiry h =
      later-Held window limit last now cs (R.entries s) admitted late h

  run-Held :
      (cs : List Call)
      → Orderly window cs
      → Held window limit
          (last_call cs)
          cs
          (R.entries (run R window limit cs).0)
          (run R window limit cs).1
  unfolding run
  run-Held [] ordered = record {
    counts = λ t late. rw R.entries-empty refl;
    known = rw R.entries-empty tt;
    bounded = λ t. omega arith;
    earlier = tt;
  }
  run-Held (c ∷ cs) (late, unused, expiry, ordered) =
      let h = run-Held cs ordered in
      let s = (run R window limit cs).0 in
      let admitted = (run R window limit cs).1 in
      script-Held c cs (if c.expired then R.empty else s) admitted unused
        (arrived-Held c.expired (last_call cs) c.now cs s admitted late expiry h)

  -- Of the calls on a key, where no clock runs back, no member is used twice and Redis keeps the key
  -- for a window, the script admits no more in any window than the limit.
  pub run-bounded :
      (cs : List Call) (t : ℕ)
      → Orderly window cs
      → count_where (in_window window t) (run R window limit cs).1 ≤ limit
  run-bounded cs t ordered = (run-Held cs ordered).bounded t
