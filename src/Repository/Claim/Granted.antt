-- ===== src/Repository/Claim/Granted.antt =====
-- What a claim grants: which rows it takes, what it makes of them, and that it takes no more than
-- its limit.
use webhook_service.Prelude.{
  All-implied, ℕ, ◌≡◌, refl, sym, ap, ◌∙◌, ◌≤◌, Bool, true, false, not, ◌&&◌, some, List, [], ◌∷◌,
  map, GoString, arith, All, length, update_where, Bool-cases, inl, inr,
}
use webhook_service.Prelude.Int.{ℤ, pos, leb_ℤ, ltb_ℤ, pos_part}
use webhook_service.Domain.Event.{Time, Duration}
use webhook_service.Domain.Delivery.{Delivery}
use webhook_service.Repository.World.{Database, World, Environment, ok}
use webhook_service.Repository.World.Inversion.{exec-eq-ok}
use webhook_service.Repository.Rows.{In, update_where-none}
use webhook_service.Repository.Reads.{ClaimedDelivery}
use webhook_service.Repository.Page.{page-In, length-page-le}
use webhook_service.Repository.Claim.{
  claimable, due_order, event_due_order, lease, candidates, is_candidate, claim_of, claim_rows,
  claim_deliveries, claim_event_deliveries,
}

-- The claim at the instant `now` took the rows `chosen`, at most `limit` of them: each stood in the
-- table, could be claimed and was not locked by another transaction. Exactly the rows with their ids
-- are leased to the owner, and the rest of the tables is as before.
pub record Grants (now : Time) (locked : GoString → Bool) (owner : GoString) (duration : Duration)
    (limit : ℕ) (before : Database) (claimed : List ClaimedDelivery) (after : Database)
    : Type 0 where
  pub chosen : List Delivery
  pub bounded : length chosen ≤ limit
  pub eligible :
      All (λ d. In d before.deliveries × (claimable now d ≡ true) × (locked d.id ≡ false)) chosen
  pub returned : claimed ≡ map (claim_of now owner duration) chosen
  pub leased : after ≡ record before {
    deliveries = update_where (is_candidate chosen) (lease now owner duration) before.deliveries;
  }

candidates-In :
    (p : Delivery → Bool) (order : Delivery → Delivery → Bool) (n : ℕ) (rows : List Delivery)
    → All (λ d. In d rows × (p d ≡ true)) (candidates p order n rows)
unfolding candidates
candidates-In p order n rows = page-In order p n rows

length-candidates-le :
    (p : Delivery → Bool) (order : Delivery → Delivery → Bool) (n : ℕ) (rows : List Delivery)
    → length (candidates p order n rows) ≤ n
unfolding candidates
length-candidates-le p order n rows = length-page-le order p n rows

-- What `claim_rows` makes of candidates that imply the condition.
claim_rows-Grants :
    (now : Time) (locked : GoString → Bool) (owner : GoString) (duration : Duration) (limit : ℕ)
    (p : Delivery → Bool) (order : Delivery → Delivery → Bool) (db : Database)
    → ((d : Delivery) → p d ≡ true → (claimable now d ≡ true) × (locked d.id ≡ false))
    → let r = claim_rows now owner duration (candidates p order limit db.deliveries) db in
      Grants now locked owner duration limit db r.0 r.1
unfolding claim_rows
claim_rows-Grants now locked owner duration limit p order db f = record {
  chosen = candidates p order limit db.deliveries;
  bounded = length-candidates-le p order limit db.deliveries;
  eligible =
      All-implied (candidates p order limit db.deliveries)
        (λ d h. let g = f d h.1 in (h.0, g.0, g.1)) (candidates-In p order limit db.deliveries);
  returned = refl;
  leased = refl;
}

and-not : (a b : Bool) → (a && not b) ≡ true → (a ≡ true) × (b ≡ false)
and-not a b h = ground arith

and₃-not : (a b c : Bool) → (a && b && not c) ≡ true → (b ≡ true) × (c ≡ false)
and₃-not a b c h = ground arith

-- An empty claim grants nothing.
Grants-nothing :
    (now : Time) (locked : GoString → Bool) (owner : GoString) (duration : Duration) (limit : ℕ)
    (db : Database) {claimed : List ClaimedDelivery}
    → [] ≡ claimed
    → Grants now locked owner duration limit db claimed db
Grants-nothing now locked owner duration limit db e = record {
  chosen = [];
  bounded = omega arith;
  eligible = tt;
  returned = sym e;
  leased =
      ap (λ (rows : List Delivery). record db { deliveries = rows })
        (sym (
          update_where-none (is_candidate []) (lease now owner duration) db.deliveries
            (λ d. refl)));
}

ok_of : {A : Type 0} {a b : A} → ok a ≡ ok b → a ≡ b
ok_of h = cc

-- Where the parts of a grant are known only up to equations.
Grants-subst :
    {now : Time} {locked : GoString → Bool} {owner : GoString} {duration : Duration} {limit : ℕ}
    {before : Database} {c c' : List ClaimedDelivery} {a a' : Database}
    → c ≡ c'
    → a ≡ a'
    → Grants now locked owner duration limit before c a
    → Grants now locked owner duration limit before c' a'
Grants-subst e f g = record {
  chosen = g.chosen;
  bounded = g.bounded;
  eligible = g.eligible;
  returned = sym e ∙ g.returned;
  leased = sym f ∙ g.leased;
}

pair_of_some :
    {A B : Type 0} {r : A × B} {a : A} {b : B} → some r ≡ some (a, b) → (r.0 ≡ a) × (r.1 ≡ b)
pair_of_some {A} {B} {r} {a} {b} h =
    let e : r ≡ (a, b) = cc in (ap (λ (x : A × B). x.0) e, ap (λ (x : A × B). x.1) e)

-- A claim of the poller that succeeds grants at most `limit` rows, due and unlocked.
pub claim_deliveries-Grants :
    (env : Environment) (owner : GoString) (duration : Duration) (limit : ℤ) (w : World)
    {claimed : List ClaimedDelivery}
    → (claim_deliveries env owner duration limit w).0 ≡ ok claimed
    → Grants
        (env.db_now w.tick)
        (env.locked w.tick)
        owner
        duration
        (pos_part limit)
        w.db
        claimed
        (claim_deliveries env owner duration limit w).1.db
unfolding claim_deliveries
claim_deliveries-Grants env owner duration limit w h =
    let (db', e, f) = exec-eq-ok env _ w h in
    elim (Bool-cases (ltb_ℤ limit (pos 0))) [
      | inl negative ↦ absurd (cc (rw negative at e))
      | inr natural ↦
          let r = pair_of_some (rw natural at e) in
          Grants-subst r.0 (r.1 ∙ sym (ap (λ (v : World). v.db) f)) (
            claim_rows-Grants (env.db_now w.tick) (env.locked w.tick) owner duration
              (pos_part limit) _ due_order w.db (λ d k. and-not _ _ k))
    ]

-- A claim for the events of a batch that succeeds grants at most `limit` rows, due and unlocked;
-- with no event or no room it grants none.
pub claim_event_deliveries-Grants :
    (env : Environment) (ids : List GoString) (owner : GoString) (duration : Duration) (limit : ℤ)
    (w : World) {claimed : List ClaimedDelivery}
    → (claim_event_deliveries env ids owner duration limit w).0 ≡ ok claimed
    → Grants
        (env.db_now w.tick)
        (env.locked w.tick)
        owner
        duration
        (pos_part limit)
        w.db
        claimed
        (claim_event_deliveries env ids owner duration limit w).1.db
unfolding claim_event_deliveries
claim_event_deliveries-Grants env [] owner duration limit w h =
    Grants-nothing _ _ owner duration _ w.db (ok_of h)
claim_event_deliveries-Grants env (id ∷ ids) owner duration limit w h =
    elim (Bool-cases (leb_ℤ limit (pos 0))) [
      | inl empty ↦ rw empty (Grants-nothing _ _ owner duration _ w.db (ok_of (rw empty at h)))
      | inr positive ↦
          let (db', e, f) = exec-eq-ok env _ w (rw positive at h) in
          let r = pair_of_some e in
          rw positive (
            Grants-subst r.0 (r.1 ∙ sym (ap (λ (v : World). v.db) f)) (
              claim_rows-Grants (env.db_now w.tick) (env.locked w.tick) owner duration
                (pos_part limit) _ (event_due_order env.collate) w.db (λ d k. and₃-not _ _ _ k)))
    ]
