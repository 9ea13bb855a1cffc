-- ===== src/Repository/Invariant/Changes.antt =====
-- Each change that a statement makes to the events or the deliveries keeps the invariant.
use mathlib.Core.Path.{ap₂}
use webhook_service.Prelude.{
  ◌≡◌, refl, ap, ◌∙◌, Bool, true, false, ◌&&◌, none, List, GoString, str_eq, arith, exists,
  update_where, is_some,
}
use webhook_service.Domain.Event.{Time, Duration, Event}
use webhook_service.Domain.Delivery.{Delivery, DeliveryStatus, schedule_replay}
use webhook_service.Repository.World.{Database}
use webhook_service.Repository.Keys.{All-update_where, Distinct-update_where}
use webhook_service.Repository.Initialize.{same_pair}
use webhook_service.Repository.Claim.{lease, claim_rows}
use webhook_service.Repository.Outcome.{with_outcome, update_outcome}
use webhook_service.Repository.Replay.{with_replay, update_replay}
use webhook_service.Repository.Invariant.{row_sound, same_delivery, WellFormed, IsValid}

-- A change of deliveries that leaves their identity alone, and makes sound rows of sound ones.
record Harmless (p : Delivery → Bool) (f : Delivery → Delivery) : Type 0 where
  id : (d : Delivery) → (f d).id ≡ d.id
  event : (d : Delivery) → (f d).event_id ≡ d.event_id
  subscription : (d : Delivery) → (f d).subscription_id ≡ d.subscription_id
  sound : (d : Delivery) → row_sound d ≡ true → p d ≡ true → row_sound (f d) ≡ true

update-WellFormed :
    (p : Delivery → Bool) (f : Delivery → Delivery) (events : List Event) (ds : List Delivery)
    → Harmless p f
    → WellFormed events ds
    → WellFormed events (update_where p f ds)
update-WellFormed p f events ds safe h = record {
  rows = All-update_where _ p f ds safe.sound h.rows;
  parents =
      All-update_where _ p f ds
        (λ d k _. ap (λ i. exists (λ (e : Event). str_eq e.id i) events) (safe.event d) ∙ k)
        h.parents;
  event_keys = h.event_keys;
  delivery_keys =
      Distinct-update_where same_delivery p f (λ x y. ap (str_eq y.id) (safe.id x))
        (λ x y. ap (λ i. str_eq i x.id) (safe.id y)) ds h.delivery_keys;
  pair_keys =
      Distinct-update_where same_pair p f
        (λ x y.
          ap₂ (λ i j. str_eq y.event_id i && str_eq y.subscription_id j) (safe.event x)
            (safe.subscription x))
        (λ x y.
          ap₂ (λ i j. str_eq i x.event_id && str_eq j x.subscription_id) (safe.event y)
            (safe.subscription y))
        ds h.pair_keys;
}

-- What a persist may write: an outcome that is not processing, with an instant where it waits.
abbrev pub settled : Delivery → Bool
settled d = elim d.status [
  | DeliveryStatus.processing ↦ false
  | DeliveryStatus.retrying ↦ is_some d.next_attempt_at
  | DeliveryStatus.throttled ↦ is_some d.next_attempt_at
  | _ ↦ true
]

with_outcome-Harmless :
    (p : Delivery → Bool) (d : Delivery) → settled d ≡ true → Harmless p (with_outcome d)
unfolding with_outcome
with_outcome-Harmless p d h = record {
  id = λ _. refl;
  event = λ _. refl;
  subscription = λ _. refl;
  sound = λ row _ _. ground (arith, h);
}

lease-Harmless :
    (p : Delivery → Bool) (now : Time) (owner : GoString) (duration : Duration)
    → Harmless p (lease now owner duration)
unfolding lease
lease-Harmless p now owner duration = record {
  id = λ _. refl;
  event = λ _. refl;
  subscription = λ _. refl;
  sound = λ row _ _. refl;
}

with_replay-Harmless :
    (p : Delivery → Bool) (d : Delivery) → row_sound d ≡ true → Harmless p (with_replay d)
unfolding with_replay
with_replay-Harmless p d h = record {
  id = λ _. refl;
  event = λ _. refl;
  subscription = λ _. refl;
  sound = λ row _ _. ground (arith, h);
}

pub update_outcome-IsValid :
    (owner : GoString) (deadline : Time) (d : Delivery) (db : Database)
    → settled d ≡ true
    → IsValid db
    → IsValid (update_outcome owner deadline d db).1
unfolding update_outcome
update_outcome-IsValid owner deadline d db s h =
    update-WellFormed _ (with_outcome d) db.events db.deliveries (with_outcome-Harmless _ d s) h

pub claim_rows-IsValid :
    (now : Time) (owner : GoString) (duration : Duration) (chosen : List Delivery) (db : Database)
    → IsValid db
    → IsValid (claim_rows now owner duration chosen db).1
unfolding claim_rows
claim_rows-IsValid now owner duration chosen db h =
    update-WellFormed _ (lease now owner duration) db.events db.deliveries
      (lease-Harmless _ now owner duration) h

pub update_replay-IsValid :
    (id : GoString) (d : Delivery) (db : Database)
    → row_sound d ≡ true
    → IsValid db
    → IsValid (update_replay id d db).1
unfolding update_replay
update_replay-IsValid id d db s h =
    update-WellFormed _ (with_replay d) db.events db.deliveries (with_replay-Harmless _ d s) h

pub schedule_replay_sound :
    (at : Time) (row d : Delivery) → schedule_replay at row ≡ (none, d) → row_sound d ≡ true
unfolding schedule_replay
schedule_replay_sound at row d h = ground (arith, h)
