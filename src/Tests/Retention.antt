-- ===== src/Tests/Retention.antt =====
-- Runs of the theorems on a cleanup and on the stop of the cleaner.
use webhook_service.Prelude.{◌<◌, true, refl, [], ◌∷◌, none, str_eq}
use webhook_service.Prelude.Int.{pos}
use webhook_service.Domain.Event.{EventStatus}
use webhook_service.Domain.Delivery.{DeliveryStatus}
use webhook_service.Repository.World.{World, exec}
use webhook_service.Repository.Sorting.{sort_by, insert_by}
use webhook_service.Repository.Retention.{
  is_expired, event_candidates, delete_rows, delete_terminal_events,
}
use webhook_service.Repository.Retention.Expired.{Cleaned, delete_terminal_events-Cleaned}
use webhook_service.Retention.Stop.{
  Place, Cleaner, new_cleaner_state, begins, cycle_ends, returns, stop_waits, stop_returns,
  CleanerReach, new, next, Waits, CleanerReach-Waits, Onward, here, on, stopped_early,
  stop_early-cleaning,
}
use webhook_service.Tests.Data.{event_1, delivery_in, tables, world_of, calm}

-- A delivered event whose delivery is done.
abbrev old_world : World
old_world = world_of (
    tables (record event_1 { status = EventStatus.delivered } ∷ [])
      (delivery_in DeliveryStatus.delivered none none ∷ []))

delete_terminal_events-Cleaned_example :
    Cleaned
      (pos 900)
      10
      old_world.db
      1
      (delete_terminal_events calm (pos 900) (pos 10) old_world).1.db
unfolding delete_terminal_events exec delete_rows event_candidates is_expired sort_by insert_by
    str_eq
delete_terminal_events-Cleaned_example =
    delete_terminal_events-Cleaned calm (pos 900) (pos 10) old_world refl

-- `Stop` is called in the first cycle, which ends before the goroutine returns.
abbrev cleaning_state : Cleaner
cleaning_state = record new_cleaner_state { place = Place.cleaning; cycles = 1 }

abbrev signalled_state : Cleaner
signalled_state = record cleaning_state { signalled = true; waiters = 1 }

abbrev idle_state : Cleaner
idle_state = record signalled_state { place = Place.waiting }

abbrev over_state : Cleaner
over_state = record idle_state { place = Place.returned }

abbrev stopped_state : Cleaner
stopped_state = record over_state { waiters = 0; waited = 1 }

stopped_state-CleanerReach : CleanerReach stopped_state
stopped_state-CleanerReach =
    next
      (next
        (next
          (next (next new (begins new_cleaner_state refl)) (stop_waits cleaning_state (λ e. cc e)))
          (cycle_ends signalled_state refl))
        (returns idle_state refl refl))
      (stop_returns over_state 0 refl refl)

CleanerReach-Waits_example : Waits stopped_state
CleanerReach-Waits_example = CleanerReach-Waits stopped_state-CleanerReach

-- The goroutine begins after the call, runs its cycle and returns.
abbrev late_state : Cleaner
late_state = record (stopped_early new_cleaner_state) { place = Place.returned; cycles = 1 }

late_state-Onward : Onward (stopped_early new_cleaner_state) late_state
late_state-Onward =
    let first = record (stopped_early new_cleaner_state) { place = Place.cleaning; cycles = 1 } in
    let idle = record first { place = Place.waiting } in
    on (on (on here (begins (stopped_early new_cleaner_state) refl)) (cycle_ends first refl))
      (returns idle refl refl)

stop_early-cleaning_example : new_cleaner_state.cycles < late_state.cycles
stop_early-cleaning_example =
    stop_early-cleaning new_cleaner_state refl late_state-Onward (λ e. cc e)
