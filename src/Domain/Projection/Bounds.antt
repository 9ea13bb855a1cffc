-- ===== src/Domain/Projection/Bounds.antt =====
-- What the projection reports beside the status: the attempts, the next attempt and the delivery
-- instant of the event, each against all deliveries.
use mathlib.Core.Path.{subst₂}
use webhook_service.Prelude.{
  ◌≡◌, refl, Option, none, some, List, [], ◌∷◌, arith, inl, inr, ◌⊎◌, sym, ◌∙◌, All, Any,
}
use webhook_service.Prelude.Int.{ℤ, pos, ◌≤ℤ◌}
use webhook_service.Domain.Event.{Time}
use webhook_service.Domain.Delivery.{Delivery}
use webhook_service.Domain.Projection.{
  Progress, project_delivery, project_loop, start, finish, project_event,
}

-- A property of a delivery that a nil pointer has for nothing, and one that it never has.
abbrev pub OfDelivery : (Delivery → Type 0) → Option Delivery → Type 0
OfDelivery P none = Unit
OfDelivery P (some d) = P d

abbrev pub SomeDelivery : (Delivery → Type 0) → Option Delivery → Type 0
SomeDelivery P none = ⊥
SomeDelivery P (some d) = P d

-- `o` is an instant no later than `t`.
abbrev pub NoLater : Option Time → Time → Type 0
NoLater none t = ⊥
NoLater (some u) t = u ≤ℤ t

abbrev pub NoEarlier : Option Time → Time → Type 0
NoEarlier none t = ⊥
NoEarlier (some u) t = t ≤ℤ u

-- `o` is at or before every instant of `p`, if `p` is set.
abbrev pub Covers : (Option Time → Time → Type 0) → Option Time → Option Time → Type 0
Covers R o none = Unit
Covers R o (some t) = R o t

-- What the loop keeps, over the deliveries that it has still to see and over its own start.
record Grows (s s' : Progress) : Type 0 where
  attempts : s.projection.attempts ≤ℤ s'.projection.attempts
  next : Covers NoLater s'.projection.next_attempt_at s.projection.next_attempt_at
  done : Covers NoEarlier s'.delivered_at s.delivered_at

record Sees (s' : Progress) (d : Delivery) : Type 0 where
  attempts : d.attempts ≤ℤ s'.projection.attempts
  next : Covers NoLater s'.projection.next_attempt_at d.next_attempt_at
  done : Covers NoEarlier s'.delivered_at d.delivered_at

NoLater-trans :
    (o p : Option Time)
    → Covers NoLater o p
    → (q : Option Time) → Covers NoLater p q
    → Covers NoLater o q
NoLater-trans none none h none k = tt
NoLater-trans none none h (some t) k = k
NoLater-trans o none h none k = tt
NoLater-trans o none h (some t) k = absurd k
NoLater-trans none (some u) h q k = absurd h
NoLater-trans (some t) (some u) h none k = tt
NoLater-trans (some t) (some u) h (some v) k = omega arith

NoEarlier-trans :
    (o p : Option Time)
    → Covers NoEarlier o p
    → (q : Option Time) → Covers NoEarlier p q
    → Covers NoEarlier o q
NoEarlier-trans none none h none k = tt
NoEarlier-trans none none h (some t) k = k
NoEarlier-trans o none h none k = tt
NoEarlier-trans o none h (some t) k = absurd k
NoEarlier-trans none (some u) h q k = absurd h
NoEarlier-trans (some t) (some u) h none k = tt
NoEarlier-trans (some t) (some u) h (some v) k = omega arith

project_delivery-Grows : (s : Progress) (d : Delivery) → Grows s (project_delivery s d)
unfolding project_delivery
project_delivery-Grows s d = ground arith

project_delivery-Sees : (s : Progress) (d : Delivery) → Sees (project_delivery s d) d
unfolding project_delivery
project_delivery-Sees s d = ground arith

Grows-refl : (s : Progress) → Grows s s
Grows-refl s = ground arith

Grows-trans : {s t u : Progress} → Grows s t → Grows t u → Grows s u
Grows-trans {s} {t} {u} g h = record {
  attempts = omega (arith, g.attempts, h.attempts);
  next = NoLater-trans _ _ h.next _ g.next;
  done = NoEarlier-trans _ _ h.done _ g.done;
}

Sees-Grows : {s t : Progress} {d : Delivery} → Sees s d → Grows s t → Sees t d
Sees-Grows v h = record {
  attempts = omega (arith, v.attempts, h.attempts);
  next = NoLater-trans _ _ h.next _ v.next;
  done = NoEarlier-trans _ _ h.done _ v.done;
}

project_loop-Grows : (s : Progress) (ds : List (Option Delivery)) → Grows s (project_loop s ds)
unfolding project_loop
project_loop-Grows s [] = Grows-refl s
project_loop-Grows s (none ∷ ds) = project_loop-Grows s ds
project_loop-Grows s (some d ∷ ds) =
    Grows-trans (project_delivery-Grows s d) (project_loop-Grows (project_delivery s d) ds)

project_loop-Sees :
    (s : Progress) (ds : List (Option Delivery)) → All (OfDelivery (Sees (project_loop s ds))) ds
unfolding project_loop
project_loop-Sees s [] = tt
project_loop-Sees s (none ∷ ds) = (tt, project_loop-Sees s ds)
project_loop-Sees s (some d ∷ ds) =
    let t = project_delivery s d in
    (Sees-Grows (project_delivery-Sees s d) (project_loop-Grows t ds), project_loop-Sees t ds)

abbrev Attained : Progress → Progress → List (Option Delivery) → Type 0
Attained s s' ds =
    ((s'.projection.attempts ≡ s.projection.attempts)
      ⊎ Any (SomeDelivery (λ d. d.attempts ≡ s'.projection.attempts)) ds)
    × ((s'.projection.next_attempt_at ≡ s.projection.next_attempt_at)
        ⊎ Any (SomeDelivery (λ d. d.next_attempt_at ≡ s'.projection.next_attempt_at)) ds)

past_nil : {A B : Type 0} → A ⊎ B → A ⊎ (⊥ ⊎ B)
past_nil (inl a) = inl a
past_nil (inr b) = inr (inr b)

-- A value that one round takes from the state or from the delivery.
past_delivery :
    {A B : Type 0} {x y v z : A} → (y ≡ x) ⊎ (y ≡ v) → (z ≡ y) ⊎ B → (z ≡ x) ⊎ ((v ≡ z) ⊎ B)
past_delivery (inl p) (inl q) = inl (q ∙ p)
past_delivery (inr p) (inl q) = inr (inl (sym (q ∙ p)))
past_delivery _ (inr b) = inr (inr b)

attempts-project_delivery :
    (s : Progress) (d : Delivery)
    → let y = (project_delivery s d).projection.attempts in
      (y ≡ s.projection.attempts) ⊎ (y ≡ d.attempts)
unfolding project_delivery
attempts-project_delivery s d = ground arith

next-project_delivery :
    (s : Progress) (d : Delivery)
    → let y = (project_delivery s d).projection.next_attempt_at in
      (y ≡ s.projection.next_attempt_at) ⊎ (y ≡ d.next_attempt_at)
unfolding project_delivery
next-project_delivery s d = ground arith

project_loop-Attained :
    (s : Progress) (ds : List (Option Delivery)) → Attained s (project_loop s ds) ds
unfolding project_loop
project_loop-Attained s [] = (inl refl, inl refl)
project_loop-Attained s (none ∷ ds) =
    let h = project_loop-Attained s ds in (past_nil h.0, past_nil h.1)
project_loop-Attained s (some d ∷ ds) =
    let h = project_loop-Attained (project_delivery s d) ds in
    (
      past_delivery (attempts-project_delivery s d) h.0,
      past_delivery (next-project_delivery s d) h.1,
    )

-- The projection that is returned takes these from the loop.
finish_fields :
    (s : Progress)
    → ((finish s).attempts ≡ s.projection.attempts)
      × ((finish s).next_attempt_at ≡ s.projection.next_attempt_at)
unfolding finish
finish_fields s = ground arith

-- `n` is the largest number of attempts, from 0, and `next` the earliest of the next attempts.
pub record Summarises (ds : List (Option Delivery)) (n : ℤ) (next : Option Time) : Type 0 where
  pub attempts_max : All (OfDelivery (λ d. d.attempts ≤ℤ n)) ds
  pub attempts_attained : (n ≡ pos 0) ⊎ Any (SomeDelivery (λ d. d.attempts ≡ n)) ds
  pub next_min : All (OfDelivery (λ d. Covers NoLater next d.next_attempt_at)) ds
  pub next_attained : (next ≡ none) ⊎ Any (SomeDelivery (λ d. d.next_attempt_at ≡ next)) ds

All-map :
    {P Q : Option Delivery → Type 0}
    → ((o : Option Delivery) → P o → Q o)
    → (ds : List (Option Delivery)) → All P ds
    → All Q ds
All-map f [] h = tt
All-map f (o ∷ ds) h = (f o h.0, All-map f ds h.1)

Sees-attempts :
    (s : Progress) (o : Option Delivery)
    → OfDelivery (Sees s) o
    → OfDelivery (λ d. d.attempts ≤ℤ s.projection.attempts) o
Sees-attempts s none h = tt
Sees-attempts s (some d) h = h.attempts

Sees-next :
    (s : Progress) (o : Option Delivery)
    → OfDelivery (Sees s) o
    → OfDelivery (λ d. Covers NoLater s.projection.next_attempt_at d.next_attempt_at) o
Sees-next s none h = tt
Sees-next s (some d) h = h.next

project_loop-Summarises :
    (ds : List (Option Delivery))
    → let p = (project_loop start ds).projection in Summarises ds p.attempts p.next_attempt_at
project_loop-Summarises ds =
    let s = project_loop start ds in
    let h = project_loop-Attained start ds in
    let v = project_loop-Sees start ds in
    record {
      attempts_max = All-map (Sees-attempts s) ds v;
      attempts_attained = h.0;
      next_min = All-map (Sees-next s) ds v;
      next_attained = h.1;
    }

-- The projected attempts are the largest number of attempts of any delivery (0 if none has more),
-- and the projected next attempt is the earliest of those that are set (nil if none is set).
pub project_event-Summarises :
    (now : Time) (ds : List (Option Delivery))
    → let p = project_event now ds in Summarises ds p.attempts p.next_attempt_at
unfolding project_event
project_event-Summarises now [] = record {
  attempts_max = tt;
  attempts_attained = inl refl;
  next_min = tt;
  next_attained = inl refl;
}
project_event-Summarises now (d ∷ ds) =
    let f = finish_fields (project_loop start (d ∷ ds)) in
    subst₂ (Summarises (d ∷ ds)) (sym f.0) (sym f.1) (project_loop-Summarises (d ∷ ds))
