-- ===== src/System/Progress.antt =====
-- No delivery is stuck.
use webhook_service.Prelude.{
  ℕ, suc, ◌≡◌, ◌⊎◌, inl, inr, refl, ap, sym, subst, ◌∙◌, Bool, if◌then◌else◌, true, false, not,
  ◌&&◌, some, none, List, [], ◌∷◌, All, map, select, GoString, arith, length,
}
use webhook_service.Prelude.Int.{ℤ, pos, leb_ℤ, ltb_ℤ, ◌<ℤ◌}
use webhook_service.Domain.Event.{Time, Duration}
use webhook_service.Domain.Delivery.{Delivery, DeliveryStatus}
use webhook_service.Repository.World.{World, Environment, ok, exec}
use webhook_service.Repository.Rows.{In, All-In}
use webhook_service.Repository.Page.{In-page, page-In}
use webhook_service.Repository.Sorting.{sort_by-Ordered}
use webhook_service.Repository.Reads.{ClaimedDelivery}
use webhook_service.Repository.Retention.{is_terminal}
use webhook_service.Repository.Claim.{
  claimable, candidates, due_at, due_order, claim_of, claim_rows, claim_deliveries,
}
use webhook_service.Repository.Invariant.{row_sound}
use webhook_service.System.{Reach}
use webhook_service.System.Invariant.{Reach-IsValid}

-- The instant from which a row may be claimed.
abbrev pub ready_at : Delivery → Time
ready_at d = elim d.status [
  | DeliveryStatus.processing ↦ elim d.processing_deadline [ none ↦ d.created_at | some t ↦ t ]
  | _ ↦ elim d.next_attempt_at [ none ↦ d.created_at | some t ↦ t ]
]

claimable_ready :
    (now : Time) (d : Delivery)
    → row_sound d ≡ true
    → is_terminal d.status ≡ false
    → leb_ℤ (ready_at d) now ≡ true
    → claimable now d ≡ true
unfolding claimable
claimable_ready now d sound live late = ground (arith, sound, live, late)

In-map_of : {A B : Type 0} (f : A → B) (x : A) (xs : List A) → In x xs → In (f x) (map f xs)
In-map_of f x [] i = i
In-map_of f x (y ∷ ys) (inl e) = inl (ap f e)
In-map_of f x (y ∷ ys) (inr i) = inr (In-map_of f x ys i)

All-map_of :
    {A B : Type 0} (P : A → Type 0) (Q : B → Type 0) (f : A → B) (xs : List A)
    → ((x : A) → P x → Q (f x))
    → All P xs
    → All Q (map f xs)
All-map_of P Q f [] k h = tt
All-map_of P Q f (x ∷ xs) k h = (k x h.0, All-map_of P Q f xs k h.1)

All-both :
    {A : Type 0} (P Q : A → Type 0) (xs : List A) → All P xs → All Q xs → All (λ x. P x × Q x) xs
All-both P Q [] h k = tt
All-both P Q (x ∷ xs) h k = ((h.0, k.0), All-both P Q xs h.1 k.1)

length-map_of : {A B : Type 0} (f : A → B) (xs : List A) → length (map f xs) ≡ length xs
length-map_of f [] = refl
length-map_of f (x ∷ xs) = ap suc (length-map_of f xs)

due_order_total : (d e : Delivery) → due_order d e ≡ false → due_order e d ≡ true
unfolding due_order
due_order_total d e h = ground (arith, h)

-- The order by two keys.
abbrev by_keys : ℤ → ℤ → ℤ → ℤ → Bool
by_keys a x b y = if ltb_ℤ a b then true else if ltb_ℤ b a then false else leb_ℤ x y

by_keys_parts : (a x b y : ℤ) → by_keys a x b y ≡ true → (a <ℤ b) ⊎ ((a ≡ b) × (leb_ℤ x y ≡ true))
by_keys_parts a x b y h = ground (arith, h)

by_keys_less : (a x b y : ℤ) → a <ℤ b → by_keys a x b y ≡ true
by_keys_less a x b y h = ground (arith, h)

by_keys_same : (a x y : ℤ) → leb_ℤ x y ≡ true → by_keys a x a y ≡ true
by_keys_same a x y h = ground (arith, h)

leb_trans : (x y z : ℤ) → leb_ℤ x y ≡ true → leb_ℤ y z ≡ true → leb_ℤ x z ≡ true
leb_trans x y z h k = ground (arith, h, k)

by_keys_trans :
    (a x b y c z : ℤ) → by_keys a x b y ≡ true → by_keys b y c z ≡ true → by_keys a x c z ≡ true
by_keys_trans a x b y c z h k = elim (by_keys_parts a x b y h) [
  | inl less ↦ elim (by_keys_parts b y c z k) [
    | inl more ↦ by_keys_less a x c z (omega (arith, less, more))
    | inr (same, _) ↦ by_keys_less a x c z (subst (λ i. a <ℤ i) same less)
  ]
  | inr (same, first) ↦ elim (by_keys_parts b y c z k) [
    | inl more ↦ by_keys_less a x c z (subst (λ i. i <ℤ c) (sym same) more)
    | inr (again, second) ↦
        subst (λ i. by_keys a x i z ≡ true) (same ∙ again)
          (by_keys_same a x z (leb_trans x y z first second))
  ]
]

due_order_trans :
    (d e f : Delivery) → due_order d e ≡ true → due_order e f ≡ true → due_order d f ≡ true
unfolding due_order
due_order_trans d e f h k =
    by_keys_trans (due_at d) d.created_at (due_at e) e.created_at (due_at f) f.created_at h k

-- The claim of a row of the table that stands no later than `d`.
abbrev pub Before : Environment → GoString → Duration → World → Delivery → ClaimedDelivery → Type 0
Before env owner duration w d c =
    (e : Delivery) × In e w.db.deliveries
    × (due_order e d ≡ true)
    × (c ≡ claim_of (env.db_now w.tick) owner duration e)

-- A claim grants the row, or so many rows as its limit allows, none of which stands after it.
abbrev pub Served :
    Environment → GoString → Duration → ℕ → World → Delivery → List ClaimedDelivery → Type 0
Served env owner duration limit w d claimed =
    In (claim_of (env.db_now w.tick) owner duration d) claimed
    ⊎ ((length claimed ≡ limit) × All (Before env owner duration w d) claimed)

claim_deliveries-takes :
    (env : Environment) (owner : GoString) (duration : Duration) (limit : ℕ) (d : Delivery)
    (w : World)
    → env.statement_fails w.tick ≡ false
    → env.locked w.tick d.id ≡ false
    → In d w.db.deliveries
    → claimable (env.db_now w.tick) d ≡ true
    → (claimed : List ClaimedDelivery) × ((claim_deliveries env owner duration (pos limit) w).0
        ≡ ok claimed)
      × Served env owner duration limit w d claimed
unfolding claim_deliveries exec claim_rows candidates
claim_deliveries-takes env owner duration limit d w runs free i c =
    let now = env.db_now w.tick in
    let passes = λ (x : Delivery). claimable now x && not (env.locked w.tick x.id) in
    let chosen = candidates passes due_order limit w.db.deliveries in
    let ordered =
      sort_by-Ordered due_order due_order_total due_order_trans (select passes w.db.deliveries) in
    (
      map (claim_of now owner duration) chosen,
      ground (arith, runs),
      elim (In-page due_order passes limit w.db.deliveries d ordered i (ground (arith, free, c))) [
        | inl taken ↦ inl (In-map_of (claim_of now owner duration) d chosen taken)
        | inr (full, before) ↦ inr (
          length-map_of (claim_of now owner duration) chosen ∙ full,
          All-map_of _ (Before env owner duration w d) (claim_of now owner duration) chosen
              (λ e h. (e, h.0.0, h.1, refl))
              (All-both _ _ chosen (page-In due_order passes limit w.db.deliveries) before),
        )
      ],
    )

-- Whatever the instances did before: from its instant on, a delivery that is neither delivered nor
-- failed is granted by every claim that does not fail and that finds the row free of the locks of other
-- transactions, or that claim grants as many rows as its limit allows, each of which comes no later in
-- the order of the claim's statement. No row that comes later in this order is granted in its place.
pub Reach-progress :
    (env : Environment) (owner : GoString) (duration : Duration) (limit : ℕ) (d : Delivery)
    {w : World}
    → Reach w
    → In d w.db.deliveries
    → is_terminal d.status ≡ false
    → leb_ℤ (ready_at d) (env.db_now w.tick) ≡ true
    → env.statement_fails w.tick ≡ false
    → env.locked w.tick d.id ≡ false
    → (claimed : List ClaimedDelivery) × ((claim_deliveries env owner duration (pos limit) w).0
        ≡ ok claimed)
      × Served env owner duration limit w d claimed
Reach-progress env owner duration limit d {w} r i live late runs free =
    claim_deliveries-takes env owner duration limit d w runs free i (
      claimable_ready (env.db_now w.tick) d (All-In _ d w.db.deliveries (Reach-IsValid r).rows i)
        live late)
