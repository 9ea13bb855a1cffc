-- ===== src/Retry/Poller.antt =====
-- internal/retry/poller.go: the loop that claims deliveries and starts a batch for each claim, and the
-- batches that it has started. Every metric is set, as internal/app/worker.go sets them; times are
-- nanoseconds where the metrics take seconds.
pub mod Steps
pub mod Sound
pub mod Claims
pub mod Slots
pub mod Stop
pub mod Lag
use webhook_service.Prelude.{
  ℕ, zero, suc, ◌*◌, Bool, true, false, not, ◌&&◌, Option, none, some, List, [], ◌∷◌, ◌++◌, map,
  GoString, lit, is_empty, length, count_where, if◌then◌else◌, ◌==◌,
}
use webhook_service.Prelude.Int.{ℤ, pos, ◌+ℤ◌, ◌-ℤ◌, ltb_ℤ, int_eq}
use webhook_service.Domain.Event.{Time, Duration, Err, claim_lost}
use webhook_service.Domain.Delivery.{Delivery}
use webhook_service.Repository.World.{World, Environment, Result, ok, err, Action, advance}
use webhook_service.Repository.Reads.{ClaimedDelivery, RetryBacklogStats, get_retry_backlog_stats}
use webhook_service.Repository.Claim.{claim_deliveries}
use webhook_service.Kafka.Delivery.{DeliveryHandler}
use webhook_service.Kafka.Handler.{Processed, Traces, process_deliveries}

pub record PollerConfig : Type 0 where
  pub poll_interval : Duration
  pub batch_size : ℤ
  pub max_concurrent_batches : ℤ
  pub instance_id : GoString
  pub lease_duration : Duration

abbrev pub seconds : ℕ → Duration
seconds n = pos (n * 1000000000)

abbrev pub default_poller_config : PollerConfig
default_poller_config = record {
  poll_interval = seconds 5;
  batch_size = pos 100;
  max_concurrent_batches = pos 1;
  instance_id = lit "worker-1";
  lease_duration = seconds 30;
}

abbrev unless_zero : ℤ → ℤ → ℤ
unless_zero fallback x = if int_eq x (pos 0) then fallback else x

-- The configuration that `NewPoller` keeps.
unfoldable pub new_poller : PollerConfig → PollerConfig
new_poller c = record {
  poll_interval = unless_zero default_poller_config.poll_interval c.poll_interval;
  batch_size = unless_zero default_poller_config.batch_size c.batch_size;
  max_concurrent_batches =
      unless_zero default_poller_config.max_concurrent_batches c.max_concurrent_batches;
  instance_id = if is_empty c.instance_id then default_poller_config.instance_id else c.instance_id;
  lease_duration = unless_zero default_poller_config.lease_duration c.lease_duration;
}

-- `PollerMetrics`: what the poller reports.
pub data PollerMetric : Type 0 where
  claimed reclaimed : ℕ → PollerMetric
  empty_poll claim_failure : PollerMetric
  persistence_failure : (stale_owner : Bool) → PollerMetric
  active_batches : (delta : ℤ) → PollerMetric
  scheduling_lag : Duration → PollerMetric
  backlog : RetryBacklogStats → (oldest_due_age : Duration) → PollerMetric

-- Where the loop of `Start` stands: at the head of the inner loop, in the `select`, or returned.
pub data Place : Type 0 where
  polling waiting returned : Place

-- `running` are the batches that goroutines process, `sending` counts the goroutines that are done
-- with theirs and stand before their send, and `finished` the messages in the channel `batchDone`.
-- `told` is what was reported, the last first.
pub record Poller : Type 0 where
  pub place : Place
  pub active : ℤ
  pub draining : Bool
  pub running : List (List ClaimedDelivery)
  pub sending : ℕ
  pub finished : ℕ
  pub told : List PollerMetric

abbrev pub started : Poller
started = record {
  place = polling;
  active = pos 0;
  draining = true;
  running = [];
  sending = 0;
  finished = 0;
  told = [];
}

abbrev pub not_negative : Duration → Duration
not_negative x = if ltb_ℤ x (pos 0) then pos 0 else x

-- `scheduledAt`.
unfoldable pub scheduled_at : ClaimedDelivery → Option Time
scheduled_at c = if c.reclaimed then c.delivery.processing_deadline else c.delivery.next_attempt_at

abbrev pub lag_since : Environment → Option Time → World → List PollerMetric × World
lag_since env none w = ([], w)
lag_since env (some t) w = (scheduling_lag (not_negative (env.now w.tick -ℤ t)) ∷ [], advance w)

-- `recordSchedulingLag`: what it reports, if anything.
unfoldable pub record_scheduling_lag :
    Environment → ClaimedDelivery → World → List PollerMetric × World
unfolding scheduled_at
record_scheduling_lag env c w = lag_since env (scheduled_at c) w

-- The loop of `startBatch`.
unfoldable pub record_lags :
    Environment → List ClaimedDelivery → List PollerMetric × World → List PollerMetric × World
unfolding record_scheduling_lag
record_lags env [] r = r
record_lags env (c ∷ cs) (told, w) =
    let (lag, w') = record_scheduling_lag env c w in record_lags env cs (lag ++ told, w')

abbrev pub report_reclaimed : ℕ → List PollerMetric → List PollerMetric
report_reclaimed zero told = told
report_reclaimed (suc n) told = reclaimed (suc n) ∷ told

-- `startBatch`: the reports, and the goroutine.
unfoldable pub start_batch : Environment → List ClaimedDelivery → Poller × World → Poller × World
unfolding record_lags
start_batch env batch (p, w) =
    let (told, w') = record_lags env batch (p.told, w) in
    let all = claimed (length batch) ∷ told in
    let some_again =
      report_reclaimed (count_where (λ (c : ClaimedDelivery). c.reclaimed) batch) all in
    (
      record p { running = p.running ++ (batch ∷ []); told = active_batches (pos 1) ∷ some_again },
      w',
    )

-- `oldestAge`, with the reading of the clock.
abbrev pub backlog_age : Environment → Option Time → World → Duration × World
backlog_age env none w = (pos 0, w)
backlog_age env (some t) w = (not_negative (env.now w.tick -ℤ t), advance w)

abbrev pub report_backlog : Environment → Result RetryBacklogStats × World → Poller → Poller × World
report_backlog env (err e, w) p = (p, w)
report_backlog env (ok stats, w) p =
    let (age, w') = backlog_age env stats.oldest_due_at w in
    (record p { told = backlog stats age ∷ p.told }, w')

unfoldable pub refresh_backlog : Environment → Poller × World → Poller × World
refresh_backlog env (p, w) = report_backlog env (get_retry_backlog_stats env w) p

-- What the inner loop makes of a claim. It is left where the claim fails or is empty.
unfoldable pub on_claim :
    Environment → PollerConfig → Result (List ClaimedDelivery) × World → Poller → Poller × World
unfolding start_batch refresh_backlog
on_claim env c (err e, w) p =
    (record p { place = waiting; draining = false; told = claim_failure ∷ p.told }, w)
on_claim env c (ok [], w) p =
    let (p', w') = refresh_backlog env (record p { told = empty_poll ∷ p.told }, w) in
    (record p' { place = waiting; draining = false }, w')
on_claim env c (ok (d ∷ ds), w) p =
    let draining = if ltb_ℤ (pos (length (d ∷ ds))) c.batch_size then false else p.draining in
    let begun =
      start_batch env (d ∷ ds) (record p { active = p.active +ℤ pos 1; draining = draining }, w) in
    if draining then begun else refresh_backlog env begun

-- The condition of the inner loop.
abbrev pub may_claim : PollerConfig → Poller → Bool
may_claim c p = p.draining && ltb_ℤ p.active c.max_concurrent_batches

-- One round of the inner loop that no stop signal ends, or the way from it to the `select`.
unfoldable pub poll : Environment → PollerConfig → World → Poller → Poller × World
unfolding on_claim
poll env c w p =
    if may_claim c p
    then on_claim env c (claim_deliveries env c.instance_id c.lease_duration c.batch_size w) p
    else (record p { place = waiting }, w)

abbrev pub is_claim_lost : Err → Bool
is_claim_lost claim_lost = true
is_claim_lost _ = false

abbrev pub report_failure : Result Processed → List PollerMetric → List PollerMetric
report_failure (ok _) told = told
report_failure (err e) told = persistence_failure (is_claim_lost e) ∷ told

-- `processRetryBatch`: the report.
unfoldable pub process_retry_batch :
    Environment
    → DeliveryHandler
    → List ClaimedDelivery
    → World
    → List PollerMetric
    → List PollerMetric
process_retry_batch env h batch w told =
    report_failure
      (process_deliveries env h (record { by_event = []; context = lit "" })
        (map (λ (c : ClaimedDelivery). some c.delivery) batch) w).0
      told
