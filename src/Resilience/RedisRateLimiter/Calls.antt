-- ===== src/Resilience/RedisRateLimiter/Calls.antt =====
-- internal/resilience/redis_ratelimiter.go: the calls of the script on one key.
use webhook_service.Prelude.{
  ℕ, ◌+◌, ◌≤◌, ◌≡◌, Bool, true, false, ◌&&◌, List, [], ◌∷◌, exists, ltb, leb, if◌then◌else◌,
}
use webhook_service.Prelude.Int.{pos}
use webhook_service.Resilience.RedisRateLimiter.{
  SortedSets, Member, same_member, sliding_window_script,
}

-- A call of the script on a key; `expired` is that Redis had dropped the key before it.
pub record Call : Type 0 where
  pub now : ℕ
  pub member : Member
  pub expired : Bool

-- The instants a window ends at and covers.
abbrev pub fresh : ℕ → ℕ → ℕ → Bool
fresh window t a = ltb t (a + window)

abbrev pub in_window : ℕ → ℕ → ℕ → Bool
in_window window t a = leb a t && fresh window t a

abbrev pub last_call : List Call → ℕ
last_call [] = 0
last_call (c ∷ cs) = c.now

-- What the clocks and the members of the calls, the last one first, are taken to do: no clock runs
-- back, no member is used twice, and Redis drops a key a window after the last call at the earliest.
abbrev pub Orderly : ℕ → List Call → Type 0
Orderly window [] = Unit
Orderly window (c ∷ cs) =
    (last_call cs ≤ c.now)
    × (exists (λ (d : Call). same_member d.member c.member) cs ≡ false)
    × (c.expired ≡ true → last_call cs + window ≤ c.now)
    × Orderly window cs

module _ (R : SortedSets) (window limit : ℕ) where
  -- The set after the calls, the last one first, and the instants of those that were admitted.
  unfoldable pub run : List Call → R.Set × List ℕ
  run [] = (R.empty, [])
  run (c ∷ cs) =
      let (s, admitted) = run cs in
      let (good, s') =
        sliding_window_script R c.now (pos window) (pos limit) c.member
          (if c.expired then R.empty else s) in
      (s', if good then c.now ∷ admitted else admitted)
