-- ===== src/Retry/Poller/Claims.antt =====
-- internal/retry/poller.go: a round of the inner loop keeps what the loop knows of itself.
use webhook_service.Prelude.{
  ℕ, suc, ◌≡◌, refl, sym, ap, ◌∙◌, inl, inr, Bool, true, false, List, [], ◌∷◌, ◌++◌, length, arith,
  and-true, Bool-cases, if◌then◌else◌, count_where,
}
use webhook_service.Prelude.Int.{ℤ, pos, negsuc, ◌+ℤ◌, ◌-ℤ◌, ltb_ℤ, leb_ℤ}
use webhook_service.Repository.World.{World, Environment, Result, ok, err}
use webhook_service.Repository.Reads.{ClaimedDelivery}
use webhook_service.Repository.Claim.{claim_deliveries}
use webhook_service.Retry.Poller.{
  PollerConfig, empty_poll, Poller, Place, polling, waiting, may_claim, claimed, record_lags,
  start_batch, refresh_backlog, on_claim, poll,
}
use webhook_service.Retry.Poller.Sound.{
  in_flight, Sound, gauge-record_lags, gauge-report_reclaimed, refresh_backlog-Same, Sound-Same,
}

length-snoc : {A : Type 0} (xs : List A) (x : A) → length (xs ++ (x ∷ [])) ≡ suc (length xs)
length-snoc [] x = refl
length-snoc (y ∷ ys) x = ap suc (length-snoc ys x)

one_more : (n : ℕ) → pos n +ℤ pos 1 ≡ pos (suc n)
unfolding ◌+ℤ◌
one_more n = ground arith

pub one_less : (n : ℕ) → pos (suc n) -ℤ pos 1 ≡ pos n
unfolding ◌-ℤ◌ ◌+ℤ◌
one_less n = ground arith

pub one_off : (n : ℕ) → pos (suc n) +ℤ negsuc 0 ≡ pos n
unfolding ◌+ℤ◌
one_off n = ground arith

polling-ne_waiting : {A : Type 0} (p : Place) → p ≡ polling → p ≡ waiting → A
polling-ne_waiting p e f = absurd (cc (e, f))

fits :
    (n : ℕ) (a : ℤ) (m : ℕ) (max : ℤ)
    → a ≡ pos n
    → ltb_ℤ a max ≡ true
    → m ≡ suc n
    → leb_ℤ (pos m) max ≡ true
fits n a m max e h k = ground (arith, e, h, k)

-- A batch that starts takes a slot.
start_batch-Sound :
    (env : Environment) (c : PollerConfig) (p : Poller) (draining : Bool)
    (batch : List ClaimedDelivery) (w : World)
    → p.place ≡ polling
    → ltb_ℤ p.active c.max_concurrent_batches ≡ true
    → Sound c p
    → Sound c
        (start_batch env batch (record p { active = p.active +ℤ pos 1; draining = draining }, w)).0
unfolding start_batch
start_batch-Sound env c p draining batch w at room s =
    let more = length-snoc p.running batch in
    record {
      count = ap (λ a. a +ℤ pos 1) s.count ∙ one_more (in_flight p) ∙ ap pos (omega (arith, more));
      slots = inr (
          fits (in_flight p) p.active _ c.max_concurrent_batches s.count room
            (omega (arith, more)));
      shown =
          ap (λ g. g +ℤ pos 1)
            (gauge-report_reclaimed (count_where (λ (b : ClaimedDelivery). b.reclaimed) batch)
                (claimed (length batch) ∷ (record_lags env batch (p.told, w)).0)
              ∙ gauge-record_lags env batch p.told w
              ∙ s.shown)
          ∙ one_more (length p.running)
          ∙ ap pos (sym more);
      idle = λ e. polling-ne_waiting p.place at e;
    }

Sound-if_refreshed :
    (env : Environment) (c : PollerConfig) (b : Bool) (r : Poller × World)
    → Sound c r.0
    → Sound c (if b then r else refresh_backlog env r).0
Sound-if_refreshed env c true r s = s
Sound-if_refreshed env c false r s = Sound-Same c r.0 _ (refresh_backlog-Same env r) s

on_claim-Sound :
    (env : Environment) (c : PollerConfig) (p : Poller) (r : Result (List ClaimedDelivery) × World)
    → p.place ≡ polling
    → ltb_ℤ p.active c.max_concurrent_batches ≡ true
    → Sound c p
    → Sound c (on_claim env c r p).0
unfolding on_claim
on_claim-Sound env c p (err e, w) at room s = record {
  count = s.count;
  slots = s.slots;
  shown = s.shown;
  idle = λ _. refl;
}
on_claim-Sound env c p (ok [], w) at room s =
    let same = refresh_backlog-Same env (record p { told = empty_poll ∷ p.told }, w) in
    let t =
      Sound-Same c (record p { told = empty_poll ∷ p.told }) _ same
        (record { count = s.count; slots = s.slots; shown = s.shown; idle = s.idle }) in
    record { count = t.count; slots = t.slots; shown = t.shown; idle = λ _. refl }
on_claim-Sound env c p (ok (d ∷ ds), w) at room s =
    let draining = if ltb_ℤ (pos (length (d ∷ ds))) c.batch_size then false else p.draining in
    Sound-if_refreshed env c draining
      (start_batch env (d ∷ ds) (record p { active = p.active +ℤ pos 1; draining = draining }, w))
      (start_batch-Sound env c p draining (d ∷ ds) w at room s)

pub poll-Sound :
    (env : Environment) (c : PollerConfig) (w : World) (p : Poller)
    → p.place ≡ polling
    → Sound c p
    → Sound c (poll env c w p).0
unfolding poll
poll-Sound env c w p at s = elim (Bool-cases (may_claim c p)) [
  | inl due ↦ rw due (
      on_claim-Sound env c p (claim_deliveries env c.instance_id c.lease_duration c.batch_size w) at
        (and-true p.draining _ due).1 s)
  | inr idle ↦
      rw idle (record { count = s.count; slots = s.slots; shown = s.shown; idle = λ _. idle })
]
