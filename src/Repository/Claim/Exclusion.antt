-- ===== src/Repository/Claim/Exclusion.antt =====
-- A lease excludes: until its deadline no claim takes the row again.
use webhook_service.Prelude.{
  ℕ, ◌≡◌, ◌≢◌, refl, sym, ap, ◌∙◌, subst, Bool, true, false, List, GoString, str_eq, str_eq_iff,
  arith, All, Bool-cases, inl, inr, update_where,
}
use webhook_service.Prelude.Int.{pos, negsuc, ◌+ℤ◌, ◌<ℤ◌, int_laws}
use webhook_service.Domain.Event.{Time, Duration}
use webhook_service.Domain.Delivery.{Delivery}
use webhook_service.Repository.World.{Database}
use webhook_service.Repository.Rows.{In, update_where-In, exists-In, All-In, All-of_In, In-map}
use webhook_service.Repository.Reads.{ClaimedDelivery}
use webhook_service.Repository.Claim.{
  claimable, lease, is_candidate, claim_of, postgres_interval, from_microseconds,
}
use webhook_service.Repository.Claim.Granted.{Grants}

-- The deadline that a claim at `now` sets.
abbrev pub deadline_of : Time → Duration → Time
deadline_of now duration = now +ℤ from_microseconds (postgres_interval duration)

interval_positive :
    (duration : Duration)
    → pos 0 <ℤ duration
    → pos 0 <ℤ from_microseconds (postgres_interval duration)
unfolding postgres_interval
interval_positive (pos n) h = ground arith
interval_positive (negsuc n) h = absurd (omega arith)

-- A positive lease, however short, ends after the claim.
pub deadline_later :
    (now : Time) (duration : Duration) → pos 0 <ℤ duration → now <ℤ deadline_of now duration
deadline_later now duration h = omega (int_laws, interval_positive duration h)

not_claimable-lease :
    (now now' : Time) (owner : GoString) (duration : Duration) (d : Delivery)
    → now' <ℤ deadline_of now duration
    → claimable now' (lease now owner duration d) ≡ false
unfolding claimable lease
not_claimable-lease now now' owner duration d h = ground arith

id-lease :
    (now : Time) (owner : GoString) (duration : Duration) (d : Delivery)
    → (lease now owner duration d).id ≡ d.id
unfolding lease
id-lease now owner duration d = refl

-- A row that is claimable while the lease of a candidate lasts has another id.
claimable-ne :
    (now now' : Time) (owner : GoString) (duration : Duration) (chosen : List Delivery)
    (rows : List Delivery) (c e : Delivery)
    → now' <ℤ deadline_of now duration
    → In c chosen
    → In e (update_where (is_candidate chosen) (lease now owner duration) rows)
    → claimable now' e ≡ true
    → e.id ≢ c.id
claimable-ne now now' owner duration chosen rows c e h ic ie ok' same =
    let (x, ix, ex) = update_where-In (is_candidate chosen) (lease now owner duration) e rows ie in
    elim (Bool-cases (is_candidate chosen x)) [
      | inl hit ↦
          let l = rw hit at ex in
          cc (not_claimable-lease now now' owner duration x h, ap (claimable now') l)
      | inr miss ↦
          let l = rw miss at ex in
          cc (
            exists-In (λ d. str_eq d.id x.id) c chosen ic
              ((str_eq_iff c.id x.id).1 (sym (ap (λ (d : Delivery). d.id) l ∙ same))))
    ]

id-claim_of :
    (now : Time) (owner : GoString) (duration : Duration) (d : Delivery)
    → (claim_of now owner duration d).delivery.id ≡ d.id
unfolding claim_of
id-claim_of now owner duration d = refl

-- The ids that a claim returns are those of the rows that it took.
claimed-chosen :
    {now : Time} {locked : GoString → Bool} {owner : GoString} {duration : Duration} {limit : ℕ}
    {before after : Database} {claimed : List ClaimedDelivery}
    (g : Grants now locked owner duration limit before claimed after) (c : ClaimedDelivery)
    → In c claimed
    → (d : Delivery) × In d g.chosen × (d.id ≡ c.delivery.id)
claimed-chosen {now = now} {owner = owner} {duration = duration} g c i =
    let (d, id, e) = In-map (claim_of now owner duration) c g.chosen (subst (In c) g.returned i) in
    (d, id, sym (id-claim_of now owner duration d) ∙ ap (λ (x : ClaimedDelivery). x.delivery.id) e)

-- The rows that were claimed stand in `mid`, if they do, as they stood in `after`.
abbrev pub Untouched : Database → Database → List ClaimedDelivery → Type 0
Untouched after mid claimed =
    (c : ClaimedDelivery) (e : Delivery)
    → In c claimed
    → In e mid.deliveries
    → e.id ≡ c.delivery.id
    → In e after.deliveries

-- A row that one claim has granted is granted by no other claim at an instant before the deadline that
-- the first one set, whatever the second one's owner, limit and locks are, while the rows that the
-- first one granted stand as it left them: without a persist or a replay of one in between. What
-- happened to other rows does not matter.
pub Grants-exclusive :
    {now now' : Time} {locked locked' : GoString → Bool} {owner owner' : GoString}
    {duration duration' : Duration} {limit limit' : ℕ} {before after mid after' : Database}
    {claimed claimed' : List ClaimedDelivery}
    → Grants now locked owner duration limit before claimed after
    → Untouched after mid claimed
    → Grants now' locked' owner' duration' limit' mid claimed' after'
    → now' <ℤ deadline_of now duration
    → All (λ c. All (λ (c' : ClaimedDelivery). c'.delivery.id ≢ c.delivery.id) claimed') claimed
Grants-exclusive {now = now} {now' = now'} {owner = owner} {duration = duration} {before = before}
      {claimed = claimed} {claimed' = claimed'} g untouched g' h =
    All-of_In _ claimed λ c ic. All-of_In _ claimed' λ c' ic' same.
      let (d, id, e) = claimed-chosen g c ic in
      let (d', id', e') = claimed-chosen g' c' ic' in
      let k = All-In _ d' g'.chosen g'.eligible id' in
      let there = untouched c d' ic k.0 (e' ∙ same) in
      claimable-ne now now' owner duration g.chosen before.deliveries d d' h id
        (subst (In d') (ap (λ (db : Database). db.deliveries) g.leased) there) k.1
        (e' ∙ same ∙ sym e)
