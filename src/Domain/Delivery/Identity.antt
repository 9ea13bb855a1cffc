-- ===== src/Domain/Delivery/Identity.antt =====
-- `DeliveryID` joins the two ids by a colon.
use webhook_service.Prelude.{◌≡◌, refl, ◌≢◌, [], ◌∷◌, ◌++◌, GoString, All}
use mathlib.Core.List.{append_assoc}
use webhook_service.Domain.Delivery.{delivery_id}

-- No byte of the text is a colon.
abbrev pub NoColon : GoString → Type 0
NoColon s = All (λ c. c ≢ b':') s

split_at_colon :
    (e e' s s' : GoString)
    → NoColon e
    → NoColon e'
    → e ++ (b':' ∷ s) ≡ e' ++ (b':' ∷ s')
    → (e ≡ e') × (s ≡ s')
split_at_colon [] [] s s' h h' p = (refl, cc)
split_at_colon [] (c ∷ e') s s' h h' p = absurd (h'.0 (cc))
split_at_colon (c ∷ e) [] s s' h h' p = absurd (h.0 (cc))
split_at_colon (c ∷ e) (d ∷ e') s s' h h' p =
    let r = split_at_colon e e' s s' h.1 h'.1 (cc) in let q : c ≡ d = cc in (cc (r.0, q), r.1)

-- Where no event id holds a colon, a delivery id determines its event and its subscription.
pub delivery_id_injective :
    (e e' s s' : GoString)
    → NoColon e
    → NoColon e'
    → delivery_id e s ≡ delivery_id e' s'
    → (e ≡ e') × (s ≡ s')
unfolding delivery_id
delivery_id_injective e e' s s' h h' p = split_at_colon e e' s s' h h' p

-- An event id that holds a colon shares delivery ids with a shorter one.
pub delivery_id_collides :
    (a b c : GoString) → delivery_id (a ++ (b':' ∷ b)) c ≡ delivery_id a (b ++ (b':' ∷ c))
unfolding delivery_id
delivery_id_collides a b c = append_assoc a (b':' ∷ b) (b':' ∷ c)
