-- ===== src/Tests/Resilience.antt =====
-- Runs of the theorems on the rate limiters, with sorted sets as lists and a limiter that allows
-- at one rate only.
use webhook_service.Prelude.{
  ◌≤◌, ◌≡◌, refl, false, not, none, List, [], ◌∷◌, lit, length, select, count_where, arith,
}
use webhook_service.Prelude.Int.{ℤ, pos, int_eq, int_eq_iff}
use webhook_service.Resilience.RedisRateLimiter.{SortedSets, Entry, put, in_range}
use webhook_service.Resilience.RedisRateLimiter.Calls.{Call, in_window, run}
use webhook_service.Resilience.RedisRateLimiter.Window.{run-bounded}
use webhook_service.Resilience.RedisRateLimiter.Collision.{collision, run-collision}
use webhook_service.Resilience.RateLimiterManager.{RateLimiters, allow, policy_rate}
use webhook_service.Resilience.RateLimiterManager.Isolation.{Touches, allow-Touches}

abbrev lists : SortedSets
lists = record {
  Set = List Entry;
  empty = [];
  zremrangebyscore = λ low high es. select (λ (e : Entry). not (in_range low high e)) es;
  zcard = λ es. length es;
  zadd = λ score m es. put m score es;
  pexpire = λ window es. es;
  entries = λ es. es;
  entries-empty = refl;
  entries-zremrangebyscore = λ low high es. refl;
  zcard_entries = λ es. refl;
  entries-zadd = λ score m es. refl;
  entries-pexpire = λ window es. refl;
}

-- Three calls, the last one first.
abbrev calls : List Call
calls =
    record { now = 1500; member = (1500, 3); expired = false }
    ∷ record { now = 900; member = (900, 2); expired = false }
    ∷ record { now = 900; member = (900, 1); expired = false }
    ∷ []

run-bounded_example : count_where (in_window 1000 1500) (run lists 1000 2 calls).1 ≤ 2
run-bounded_example = run-bounded lists 1000 2 calls 1500 (
  omega arith,
  refl,
  λ e. absurd (cc (e)),
  (omega arith, refl, λ e. absurd (cc (e)), (omega arith, refl, λ e. absurd (cc (e)), tt)),
)

run-collision_example : length (run lists 1000 2 (collision 900 (900, 1) 5)).1 ≡ 5
run-collision_example = run-collision lists 1000 0 900 (900, 1) 5 (omega arith)

-- A limiter is the rate that it was made with.
abbrev strict : RateLimiters
strict = record {
  Rate = ℤ;
  Limiter = ℤ;
  rate_of = λ n. n;
  same_rate = int_eq;
  new_limiter = λ r. r;
  limit = λ l. l;
  allow = λ now l. (int_eq l (pos 7), l);
  delay = λ now l. (none, l);
  limit-new_limiter = λ r. refl;
  limit-allow = λ now l. refl;
  limit-delay = λ now l. refl;
  same_rate_eq = λ r s h. (int_eq_iff r s).0 h;
}

allow-Touches_example :
    Touches strict
      (lit "a")
      (policy_rate strict (record { requests_per_second = pos 5 }))
      ((lit "b", pos 7) ∷ [])
      (allow strict
        (pos 100)
        (pos 1)
        (pos 2)
        (lit "a")
        (record { requests_per_second = pos 5 })
        ((lit "b", pos 7) ∷ [])).1
allow-Touches_example =
    allow-Touches strict (pos 100) (pos 1) (pos 2) (lit "a")
      (record { requests_per_second = pos 5 }) ((lit "b", pos 7) ∷ [])
