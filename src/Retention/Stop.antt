-- ===== src/Retention/Stop.antt =====
-- internal/retention/cleaner.go: the goroutine of `Start` and the calls of `Stop`, in any order that
-- their channels allow. A `select` with more than one case that is ready takes any of them.
use webhook_service.Prelude.{
  ℕ, suc, ◌≡◌, ◌≢◌, ◌<◌, ◌⊎◌, inl, inr, refl, Bool, true, false, ◌||◌, arith,
}

-- Where the goroutine of `Start` stands: not scheduled yet, in a cycle, in the `select`, or returned.
pub data Place : Type 0 where
  not_begun cleaning waiting returned : Place

-- `signalled` is that the channel `stopCh` is closed, `cancelled` that the context is done. `waiters` are
-- the calls of `Stop` that wait for `done`, `waited` those that have returned from it, and `early` those
-- that found `started` open and returned at once. `cycles` counts the cycles that have been begun.
pub record Cleaner : Type 0 where
  pub place : Place
  pub signalled : Bool
  pub cancelled : Bool
  pub waiters : ℕ
  pub waited : ℕ
  pub early : ℕ
  pub cycles : ℕ

abbrev pub new_cleaner_state : Cleaner
new_cleaner_state = record {
  place = not_begun;
  signalled = false;
  cancelled = false;
  waiters = 0;
  waited = 0;
  early = 0;
  cycles = 0;
}

pub data CleanerStep : Cleaner → Cleaner → Type 0 where
  begins :
      (c : Cleaner)
      → c.place ≡ not_begun
      → CleanerStep c (record c { place = cleaning; cycles = suc c.cycles })
  cycle_ends : (c : Cleaner) → c.place ≡ cleaning → CleanerStep c (record c { place = waiting })
  ticked :
      (c : Cleaner)
      → c.place ≡ waiting
      → CleanerStep c (record c { place = cleaning; cycles = suc c.cycles })
  returns :
      (c : Cleaner)
      → c.place ≡ waiting
      → (c.signalled || c.cancelled) ≡ true
      → CleanerStep c (record c { place = returned })
  stop_early :
      (c : Cleaner)
      → c.place ≡ not_begun
      → CleanerStep c (record c { signalled = true; early = suc c.early })
  stop_waits :
      (c : Cleaner)
      → c.place ≢ not_begun
      → CleanerStep c (record c { signalled = true; waiters = suc c.waiters })
  stop_returns :
      (c : Cleaner) (n : ℕ)
      → c.waiters ≡ suc n
      → c.place ≡ returned
      → CleanerStep c (record c { waiters = n; waited = suc c.waited })
  cancels : (c : Cleaner) → CleanerStep c (record c { cancelled = true })

pub data CleanerReach : Cleaner → Type 0 where
  new : CleanerReach new_cleaner_state
  next : {c d : Cleaner} → CleanerReach c → CleanerStep c d → CleanerReach d

-- A call of `Stop` that waited is over only after the goroutine, and a goroutine that has not begun has
-- no one who waits for it.
pub record Waits (c : Cleaner) : Type 0 where
  pub over : c.waited ≢ 0 → c.place ≡ returned
  pub nobody : c.place ≡ not_begun → (c.waiters ≡ 0) × (c.waited ≡ 0)

CleanerStep-Waits : {c d : Cleaner} → CleanerStep c d → Waits c → Waits d
CleanerStep-Waits (begins c at) v = record {
  over = λ w. absurd (w (v.nobody at).1);
  nobody = λ e. absurd (cc e);
}
CleanerStep-Waits (cycle_ends c at) v = record {
  over = λ w. absurd (cc (at, v.over w));
  nobody = λ e. absurd (cc e);
}
CleanerStep-Waits (ticked c at) v = record {
  over = λ w. absurd (cc (at, v.over w));
  nobody = λ e. absurd (cc e);
}
CleanerStep-Waits (returns c at due) v = record { over = λ w. refl; nobody = λ e. absurd (cc e) }
CleanerStep-Waits (stop_early c at) v = record { over = v.over; nobody = v.nobody }
CleanerStep-Waits (stop_waits c begun) v = record { over = v.over; nobody = λ e. absurd (begun e) }
CleanerStep-Waits (stop_returns c n some_waiter at) v = record {
  over = λ w. at;
  nobody = λ e. absurd (cc (e, at));
}
CleanerStep-Waits (cancels c) v = record { over = v.over; nobody = v.nobody }

-- In every state that the goroutine of `Start` and the calls of `Stop` reach, in any order: once a call
-- of `Stop` that found the cleaner begun has returned, the goroutine has returned, so that no cycle is
-- in flight and none can follow.
pub CleanerReach-Waits : {c : Cleaner} → CleanerReach c → Waits c
CleanerReach-Waits new = record { over = λ w. absurd (w refl); nobody = λ e. (refl, refl) }
CleanerReach-Waits (next r s) = CleanerStep-Waits s (CleanerReach-Waits r)

-- A call of `Stop` that comes before the goroutine of `Start` has begun.
abbrev pub stopped_early : Cleaner → Cleaner
stopped_early c = record c { signalled = true; early = suc c.early }

-- What follows a state, in any number of steps.
pub data Onward (c : Cleaner) : Cleaner → Type 0 where
  here : Onward c c
  on : {d e : Cleaner} → Onward c d → CleanerStep d e → Onward c e

-- The goroutine has not begun and as many cycles have, or it has begun and so has a further cycle.
abbrev CycleFirst : ℕ → Cleaner → Type 0
CycleFirst n d = ((d.place ≡ not_begun) × (d.cycles ≡ n)) ⊎ ((d.place ≢ not_begun) × (n < d.cycles))

CleanerStep-CycleFirst : (n : ℕ) {d e : Cleaner} → CleanerStep d e → CycleFirst n d → CycleFirst n e
CleanerStep-CycleFirst n (begins d at) (inl (_, same)) = inr (λ e. cc e, omega (arith, same))
CleanerStep-CycleFirst n (begins d at) (inr (begun, _)) = absurd (begun at)
CleanerStep-CycleFirst n (cycle_ends d at) (inl (unbegun, _)) = absurd (cc (at, unbegun))
CleanerStep-CycleFirst n (cycle_ends d at) (inr (_, more)) = inr (λ e. cc e, more)
CleanerStep-CycleFirst n (ticked d at) (inl (unbegun, _)) = absurd (cc (at, unbegun))
CleanerStep-CycleFirst n (ticked d at) (inr (_, more)) = inr (λ e. cc e, omega (arith, more))
CleanerStep-CycleFirst n (returns d at due) (inl (unbegun, _)) = absurd (cc (at, unbegun))
CleanerStep-CycleFirst n (returns d at due) (inr (_, more)) = inr (λ e. cc e, more)
CleanerStep-CycleFirst n (stop_early d at) v = v
CleanerStep-CycleFirst n (stop_waits d begun) v = v
CleanerStep-CycleFirst n (stop_returns d m some_waiter at) v = v
CleanerStep-CycleFirst n (cancels d) v = v

Onward-CycleFirst :
    (c : Cleaner)
    → c.place ≡ not_begun
    → {d : Cleaner} → Onward (stopped_early c) d
    → CycleFirst c.cycles d
Onward-CycleFirst c at here = inl (at, refl)
Onward-CycleFirst c at (on r s) = CleanerStep-CycleFirst c.cycles s (Onward-CycleFirst c at r)

-- A call of `Stop` that comes before the goroutine of `Start` has begun, which returns at once, does not
-- keep the goroutine from its first cycle. In every state that follows this call, in any order of the
-- goroutine's steps, of further calls and of the end of the context, where the goroutine has begun, also
-- where it has returned since, a cycle has been begun after the call.
pub stop_early-cleaning :
    (c : Cleaner) {d : Cleaner}
    → c.place ≡ not_begun
    → Onward (stopped_early c) d
    → d.place ≢ not_begun
    → c.cycles < d.cycles
stop_early-cleaning c at r begun = elim (Onward-CycleFirst c at r) [
  | inl (unbegun, _) ↦ absurd (begun unbegun)
  | inr (_, more) ↦ more
]
