-- ===== src/Repository/Subscriptions.antt =====
-- internal/repository/postgres/subscription.go.
use webhook_service.Prelude.{
  Bool, false, ◌&&◌, none, some, List, [], ◌∷◌, ◌++◌, GoString, str_eq, if◌then◌else◌, select,
  exists, update_where, count_where, ◌==◌,
}
use webhook_service.Prelude.Int.{pos, leb_ℤ}
use webhook_service.Domain.Event.{not_found}
use webhook_service.Domain.Subscription.{Subscription, matches_event_type}
use webhook_service.Repository.World.{Environment, Action, ◌>>=◌, pure, throw, query, exec}
use webhook_service.Repository.Sorting.{sort_by}

-- `Create`: the primary key and the check on the rate may refuse the row.
unfoldable pub create : Environment → Subscription → Action (Unit {0})
create env sub = exec env λ _ _ db.
    if exists (λ s. str_eq s.id sub.id) db.subscriptions
    then none
    else if leb_ℤ sub.max_delivery_rate (pos 0)
    then none
    else some (tt, record db { subscriptions = db.subscriptions ++ (sub ∷ []) })

abbrev pub is_active : Subscription → Bool
is_active s = s.active

unfoldable pub get_active : Environment → Action (List Subscription)
get_active env =
    query env
      λ _ _ db. sort_by (λ s t. leb_ℤ s.created_at t.created_at) (select is_active db.subscriptions)

-- The result map: an event type and its subscriptions, in the order of the rows.
abbrev pub SubscriptionMap : Type 0
SubscriptionMap = List (GoString × List Subscription)

-- `result[et] = nil`.
set_nil : GoString → SubscriptionMap → SubscriptionMap
set_nil et [] = (et, []) ∷ []
set_nil et ((t, subs) ∷ m) = if str_eq t et then (t, []) ∷ m else (t, subs) ∷ set_nil et m

-- `result[et] = append(result[et], sub)`.
append_to : GoString → Subscription → SubscriptionMap → SubscriptionMap
append_to et sub [] = (et, sub ∷ []) ∷ []
append_to et sub ((t, subs) ∷ m) =
    if str_eq t et then (t, subs ++ (sub ∷ [])) ∷ m else (t, subs) ∷ append_to et sub m

-- The loops of `GetByEventTypes`: the keys, then for each subscription each type.
set_keys : List GoString → SubscriptionMap → SubscriptionMap
set_keys [] m = m
set_keys (et ∷ ets) m = set_keys ets (set_nil et m)

match_sub : Subscription → List GoString → SubscriptionMap → SubscriptionMap
match_sub sub [] m = m
match_sub sub (et ∷ ets) m =
    match_sub sub ets (if matches_event_type sub et then append_to et sub m else m)

match_subs : List Subscription → List GoString → SubscriptionMap → SubscriptionMap
match_subs [] ets m = m
match_subs (sub ∷ subs) ets m = match_subs subs ets (match_sub sub ets m)

unfoldable pub match_types : List Subscription → List GoString → SubscriptionMap
unfolding set_nil append_to set_keys match_sub match_subs
match_types subs ets = match_subs subs ets (set_keys ets [])

unfoldable pub get_by_event_types : Environment → List GoString → Action SubscriptionMap
get_by_event_types env [] = pure []
get_by_event_types env (et ∷ ets) = do
  all_subs ← query env (λ _ _ db. select is_active db.subscriptions)
  pure (match_types all_subs (et ∷ ets))

-- Reading the map: a missing key gives the nil slice.
unfoldable pub lookup_subs : GoString → SubscriptionMap → List Subscription
lookup_subs et [] = []
lookup_subs et ((t, subs) ∷ m) = let rest = lookup_subs et m in if str_eq t et then subs else rest

-- `Delete` makes the row inactive.
unfoldable pub delete : Environment → GoString → Action (Unit {0})
delete env id = do
  affected ← exec env λ _ _ db.
      let this = λ (s : Subscription). str_eq s.id id in
      some (
        count_where this db.subscriptions,
        record db {
          subscriptions = update_where this (λ s. record s { active = false }) db.subscriptions;
        },
      )
  if affected == 0 then throw not_found else pure tt

unfoldable pub update_secret : Environment → GoString → GoString → Action (Unit {0})
update_secret env id secret = do
  affected ← exec env λ _ _ db.
      let this = λ (s : Subscription). str_eq s.id id && s.active in
      some (
        count_where this db.subscriptions,
        record db {
          subscriptions =
              update_where this (λ s. record s { secret = some secret }) db.subscriptions;
        },
      )
  if affected == 0 then throw not_found else pure tt
