-- ===== src/Retry/Poller/Sound.antt =====
-- internal/retry/poller.go: what the loop knows of itself, and the reports, which change nothing of it.
use mathlib.Core.Path.{ap₂}
use webhook_service.Prelude.{
  ℕ, zero, suc, ◌+◌, ◌≡◌, refl, sym, ap, ◌∙◌, ◌⊎◌, inl, inr, true, false, ◌&&◌, Option, none, some,
  List, [], ◌∷◌, ◌++◌, length, Option-cases, subst,
}
use webhook_service.Prelude.Int.{ℤ, pos, ◌+ℤ◌, ltb_ℤ, leb_ℤ}
use webhook_service.Domain.Event.{Time}
use webhook_service.Repository.World.{World, Environment, Result, ok, err}
use webhook_service.Repository.Reads.{ClaimedDelivery, RetryBacklogStats, get_retry_backlog_stats}
use webhook_service.Retry.Poller.{
  PollerConfig, PollerMetric, active_batches, Poller, waiting, may_claim, lag_since,
  record_scheduling_lag, record_lags, refresh_backlog, report_backlog, scheduled_at,
  report_reclaimed,
}

-- The value of the gauge `ActiveBatches`.
abbrev pub gauge : List PollerMetric → ℤ
gauge [] = pos 0
gauge (active_batches d ∷ told) = gauge told +ℤ d
gauge (_ ∷ told) = gauge told

-- The goroutines and the messages that a batch has become.
abbrev pub in_flight : Poller → ℕ
in_flight p = length p.running + (p.sending + p.finished)

-- What the loop knows of itself: the count is that of the batches in flight, there are as many as the
-- slots at most, the gauge counts those that run, and the loop waits only where its flag `draining` is
-- cleared or it has no slot.
pub record Sound (c : PollerConfig) (p : Poller) : Type 0 where
  pub count : p.active ≡ pos (in_flight p)
  pub slots : (in_flight p ≡ 0) ⊎ (leb_ℤ (pos (in_flight p)) c.max_concurrent_batches ≡ true)
  pub shown : gauge p.told ≡ pos (length p.running)
  pub idle : p.place ≡ waiting → may_claim c p ≡ false

pub gauge-lag_since :
    (env : Environment) (o : Option Time) (told : List PollerMetric) (w : World)
    → gauge ((lag_since env o w).0 ++ told) ≡ gauge told
gauge-lag_since env none told w = refl
gauge-lag_since env (some t) told w = refl

pub gauge-record_lags :
    (env : Environment) (cs : List ClaimedDelivery) (told : List PollerMetric) (w : World)
    → gauge (record_lags env cs (told, w)).0 ≡ gauge told
unfolding record_lags record_scheduling_lag
gauge-record_lags env [] told w = refl
gauge-record_lags env (c ∷ cs) told w =
    gauge-record_lags env cs ((record_scheduling_lag env c w).0 ++ told)
      (record_scheduling_lag env c w).1
    ∙ gauge-lag_since env (scheduled_at c) told w

pub gauge-report_reclaimed :
    (n : ℕ) (told : List PollerMetric) → gauge (report_reclaimed n told) ≡ gauge told
gauge-report_reclaimed zero told = refl
gauge-report_reclaimed (suc n) told = refl

-- A report that is none of the gauge's.
pub record Same (p p' : Poller) : Type 0 where
  place : p'.place ≡ p.place
  active : p'.active ≡ p.active
  draining : p'.draining ≡ p.draining
  running : p'.running ≡ p.running
  sending : p'.sending ≡ p.sending
  finished : p'.finished ≡ p.finished
  shown : gauge p'.told ≡ gauge p.told

pub Same-itself : (p : Poller) → Same p p
Same-itself p = record {
  place = refl;
  active = refl;
  draining = refl;
  running = refl;
  sending = refl;
  finished = refl;
  shown = refl;
}

pub report_backlog-Same :
    (env : Environment) (r : Result RetryBacklogStats × World) (p : Poller)
    → Same p (report_backlog env r p).0
report_backlog-Same env (err e, w) p = Same-itself p
report_backlog-Same env (ok stats, w) p = elim (Option-cases stats.oldest_due_at) [
  | inl unset ↦ rw unset (record {
    place = refl;
    active = refl;
    draining = refl;
    running = refl;
    sending = refl;
    finished = refl;
    shown = refl;
  })
  | inr (t, e) ↦ rw e (record {
    place = refl;
    active = refl;
    draining = refl;
    running = refl;
    sending = refl;
    finished = refl;
    shown = refl;
  })
]

pub refresh_backlog-Same :
    (env : Environment) (r : Poller × World) → Same r.0 (refresh_backlog env r).0
unfolding refresh_backlog
refresh_backlog-Same env (p, w) = report_backlog-Same env (get_retry_backlog_stats env w) p

pub Sound-Same : (c : PollerConfig) (p p' : Poller) → Same p p' → Sound c p → Sound c p'
Sound-Same c p p' same s =
    let flight : in_flight p' ≡ in_flight p = cc (same.running, same.sending, same.finished) in
    record {
      count = same.active ∙ s.count ∙ ap pos (sym flight);
      slots =
          subst (λ n. (n ≡ 0) ⊎ (leb_ℤ (pos n) c.max_concurrent_batches ≡ true)) (sym flight)
            s.slots;
      shown =
          same.shown
          ∙ s.shown
          ∙ ap (λ (b : List (List ClaimedDelivery)). pos (length b)) (sym same.running);
      idle = λ at.
          ap₂ (λ d a. d && ltb_ℤ a c.max_concurrent_batches) same.draining same.active
          ∙ s.idle (sym same.place ∙ at);
    }
