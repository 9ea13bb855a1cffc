-- ===== src/App/Observers/Polls.antt =====
-- internal/retry/poller.go with internal/app/worker.go: the worker's metrics of its retry poller.
use webhook_service.Prelude.{
  ℕ, zero, suc, ◌≤◌, ◌≡◌, refl, ap, ◌∙◌, Bool, true, false, Option, none, some, List, [], ◌∷◌, ◌++◌,
  length, arith, count_where, if◌then◌else◌, inl, inr, Bool-cases,
}
use webhook_service.Prelude.Int.{ℤ, pos, ◌+ℤ◌, ltb_ℤ}
use webhook_service.Domain.Event.{Time}
use webhook_service.Repository.World.{World, Environment, Result, ok, err}
use webhook_service.Repository.Reads.{ClaimedDelivery, RetryBacklogStats, get_retry_backlog_stats}
use webhook_service.Repository.Claim.{claim_deliveries}
use webhook_service.Kafka.Handler.{Processed}
use webhook_service.Retry.Poller.{
  PollerConfig, Poller, PollerMetric, claimed, reclaimed, empty_poll, claim_failure,
  persistence_failure, active_batches, scheduling_lag, backlog, lag_since, record_scheduling_lag,
  record_lags, scheduled_at, report_reclaimed, start_batch, report_backlog, refresh_backlog,
  on_claim, may_claim, poll, is_claim_lost, report_failure, process_retry_batch,
}
use webhook_service.Retry.Poller.Steps.{
  GoroutineStep, in_goroutine, PollStep, polled, stopped_before_claim, stopped, ticked, batch_done,
  processed, sent, PollReach, begin, next,
}
use webhook_service.Retry.Poller.Sound.{gauge}
use webhook_service.Retry.Poller.Slots.{PollReach-Sound}
use webhook_service.Observability.Metrics.{Metrics, new_metrics}
use webhook_service.App.Observers.{record_poller_metric, record_told}

-- The metrics after the poller's reports.
abbrev pub shown_by : List PollerMetric → Metrics
shown_by told = record_told told new_metrics

gauge-shown_by : (told : List PollerMetric) → (shown_by told).retry_active_batches ≡ gauge told
unfolding record_told record_poller_metric
gauge-shown_by [] = refl
gauge-shown_by (active_batches d ∷ told) = ap (λ g. g +ℤ d) (gauge-shown_by told)
gauge-shown_by (claimed n ∷ told) = gauge-shown_by told
gauge-shown_by (reclaimed n ∷ told) = gauge-shown_by told
gauge-shown_by (empty_poll ∷ told) = gauge-shown_by told
gauge-shown_by (claim_failure ∷ told) = gauge-shown_by told
gauge-shown_by (persistence_failure true ∷ told) = gauge-shown_by told
gauge-shown_by (persistence_failure false ∷ told) = gauge-shown_by told
gauge-shown_by (scheduling_lag t ∷ told) = gauge-shown_by told
gauge-shown_by (backlog stats age ∷ told) = gauge-shown_by told

-- No more deliveries were reclaimed than claimed, and no more outcomes were refused to a stale owner
-- than could not be written.
pub record Plausible (m : Metrics) : Type 0 where
  pub claims : m.retry_events_reclaimed ≤ m.retry_events_claimed
  pub refusals : m.retry_stale_owner_rejections ≤ m.retry_persistence_failures

abbrev Fair : List PollerMetric → Type 0
Fair told = Plausible (shown_by told)

Fair-lag_since :
    (env : Environment) (o : Option Time) (told : List PollerMetric) (w : World)
    → Fair told
    → Fair ((lag_since env o w).0 ++ told)
unfolding record_told record_poller_metric
Fair-lag_since env none told w f = f
Fair-lag_since env (some t) told w f = record { claims = f.claims; refusals = f.refusals }

Fair-record_lags :
    (env : Environment) (cs : List ClaimedDelivery) (told : List PollerMetric) (w : World)
    → Fair told
    → Fair (record_lags env cs (told, w)).0
unfolding record_lags record_scheduling_lag
Fair-record_lags env [] told w f = f
Fair-record_lags env (c ∷ cs) told w f =
    Fair-record_lags env cs ((record_scheduling_lag env c w).0 ++ told)
      (record_scheduling_lag env c w).1 (Fair-lag_since env (scheduled_at c) told w f)

count_where-le : {A : Type 0} (p : A → Bool) (xs : List A) → count_where p xs ≤ length xs
count_where-le p [] = omega arith
count_where-le p (x ∷ xs) = ground (arith, count_where-le p xs)

Fair-claimed :
    (k n : ℕ) (told : List PollerMetric)
    → k ≤ n
    → Fair told
    → Fair (report_reclaimed k (claimed n ∷ told))
unfolding record_told record_poller_metric
Fair-claimed zero n told le f = record { claims = omega (arith, f.claims); refusals = f.refusals }
Fair-claimed (suc k) n told le f = record {
  claims = omega (arith, le, f.claims);
  refusals = f.refusals;
}

Fair-active_batches :
    (d : ℤ) (told : List PollerMetric) → Fair told → Fair (active_batches d ∷ told)
unfolding record_told record_poller_metric
Fair-active_batches d told f = record { claims = f.claims; refusals = f.refusals }

Fair-start_batch :
    (env : Environment) (batch : List ClaimedDelivery) (p : Poller) (w : World)
    → Fair p.told
    → Fair (start_batch env batch (p, w)).0.told
unfolding start_batch
Fair-start_batch env batch p w f = Fair-active_batches (pos 1) _ (
    Fair-claimed _ (length batch) _ (count_where-le (λ (c : ClaimedDelivery). c.reclaimed) batch)
      (Fair-record_lags env batch p.told w f))

Fair-report_backlog :
    (env : Environment) (r : Result RetryBacklogStats × World) (p : Poller)
    → Fair p.told
    → Fair (report_backlog env r p).0.told
unfolding record_told record_poller_metric
Fair-report_backlog env (err e, w) p f = f
Fair-report_backlog env (ok stats, w) p f = record { claims = f.claims; refusals = f.refusals }

Fair-refresh_backlog :
    (env : Environment) (r : Poller × World) → Fair r.0.told → Fair (refresh_backlog env r).0.told
unfolding refresh_backlog
Fair-refresh_backlog env (p, w) f = Fair-report_backlog env (get_retry_backlog_stats env w) p f

Fair-if_refreshed :
    (env : Environment) (b : Bool) (r : Poller × World)
    → Fair r.0.told
    → Fair (if b then r else refresh_backlog env r).0.told
Fair-if_refreshed env true r f = f
Fair-if_refreshed env false r f = Fair-refresh_backlog env r f

Fair-on_claim :
    (env : Environment) (c : PollerConfig) (r : Result (List ClaimedDelivery) × World) (p : Poller)
    → Fair p.told
    → Fair (on_claim env c r p).0.told
unfolding on_claim record_told record_poller_metric
Fair-on_claim env c (err e, w) p f = record { claims = f.claims; refusals = f.refusals }
Fair-on_claim env c (ok [], w) p f =
    Fair-refresh_backlog env (record p { told = empty_poll ∷ p.told }, w)
      (record { claims = f.claims; refusals = f.refusals })
Fair-on_claim env c (ok (d ∷ ds), w) p f =
    let few = ltb_ℤ (pos (length (d ∷ ds))) c.batch_size in
    let draining = if few then false else p.draining in
    let begun = record p { active = p.active +ℤ pos 1; draining = draining } in
    Fair-if_refreshed env draining (start_batch env (d ∷ ds) (begun, w))
      (Fair-start_batch env (d ∷ ds) begun w f)

Fair-poll :
    (env : Environment) (c : PollerConfig) (w : World) (p : Poller)
    → Fair p.told
    → Fair (poll env c w p).0.told
unfolding poll
Fair-poll env c w p f = elim (Bool-cases (may_claim c p)) [
  | inl e ↦
      rw e (
        Fair-on_claim env c (claim_deliveries env c.instance_id c.lease_duration c.batch_size w) p
          f)
  | inr e ↦ rw e f
]

Fair-failure :
    (stale : Bool) (told : List PollerMetric) → Fair told → Fair (persistence_failure stale ∷ told)
unfolding record_told record_poller_metric
Fair-failure true told f = record { claims = f.claims; refusals = omega (arith, f.refusals) }
Fair-failure false told f = record { claims = f.claims; refusals = omega (arith, f.refusals) }

Fair-report_failure :
    (r : Result Processed) (told : List PollerMetric) → Fair told → Fair (report_failure r told)
unfolding record_told record_poller_metric
Fair-report_failure (ok _) told f = f
Fair-report_failure (err e) told f = Fair-failure (is_claim_lost e) told f

Fair-GoroutineStep :
    (c : PollerConfig) {p p' : Poller} → GoroutineStep c p p' → Fair p.told → Fair p'.told
unfolding process_retry_batch
Fair-GoroutineStep c (processed env h w p before after batch e) f =
    Fair-active_batches _ _ (Fair-report_failure _ p.told f)
Fair-GoroutineStep c (sent p n e room) f = f

Fair-PollStep : (c : PollerConfig) {p p' : Poller} → PollStep c p p' → Fair p.told → Fair p'.told
Fair-PollStep c (polled env w p at) f = Fair-poll env c w p f
Fair-PollStep c (stopped_before_claim p at due) f = f
Fair-PollStep c (stopped p at) f = f
Fair-PollStep c (ticked p at) f = f
Fair-PollStep c (batch_done p n at done) f = f
Fair-PollStep c (in_goroutine p p' g) f = Fair-GoroutineStep c g f

PollReach-Fair : (c : PollerConfig) {p : Poller} → PollReach c p → Fair p.told
unfolding record_told
PollReach-Fair c begin = record { claims = omega arith; refusals = omega arith }
PollReach-Fair c (next r s) = Fair-PollStep c s (PollReach-Fair c r)

-- In every state that the poller reaches, the worker's gauge of the active batches is the number of
-- batches that run; no more deliveries were counted as reclaimed than as claimed, and no more
-- rejections of a stale owner than failures to write an outcome.
pub PollReach-Shown :
    (c : PollerConfig) {p : Poller}
    → PollReach c p
    → ((shown_by p.told).retry_active_batches ≡ pos (length p.running))
      × Plausible (shown_by p.told)
PollReach-Shown c {p} r = (gauge-shown_by p.told ∙ (PollReach-Sound c r).shown, PollReach-Fair c r)
