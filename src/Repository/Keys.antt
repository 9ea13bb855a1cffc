-- ===== src/Repository/Keys.antt =====
-- Primary keys and unique columns: no two rows of a table are the same by a test. And which changes
-- of a table keep that, and what holds of every row.
use webhook_service.Repository.Rows.{exists-update_where}
use webhook_service.Prelude.{
  ◌≡◌, refl, ◌∙◌, Bool, true, false, List, [], ◌∷◌, ◌++◌, arith, GoString, str_eq, All, exists,
  select, update_where, Bool-cases, inl, inr,
}

pub str_eq_sym : (s t : GoString) → str_eq s t ≡ str_eq t s
unfolding str_eq
str_eq_sym [] [] = refl
str_eq_sym [] (b ∷ t) = refl
str_eq_sym (a ∷ s) [] = refl
str_eq_sym (a ∷ s) (b ∷ t) = ground (arith, str_eq_sym s t)

module _ {A : Type 0} (P : A → Type 0) where
  pub All-snoc : (xs : List A) (x : A) → All P xs → P x → All P (xs ++ (x ∷ []))
  All-snoc [] x h p = (p, tt)
  All-snoc (y ∷ xs) x h p = (h.0, All-snoc xs x h.1 p)

  pub All-update_where :
      (p : A → Bool) (f : A → A) (xs : List A)
      → ((x : A) → P x → p x ≡ true → P (f x))
      → All P xs
      → All P (update_where p f xs)
  All-update_where p f [] k h = tt
  All-update_where p f (x ∷ xs) k h = elim (Bool-cases (p x)) [
    | inl hit ↦ rw hit (k x h.0 hit, All-update_where p f xs k h.1)
    | inr miss ↦ rw miss (h.0, All-update_where p f xs k h.1)
  ]

  pub All-select :
      (p : A → Bool) (xs : List A) → All P xs → All (λ x. P x × (p x ≡ true)) (select p xs)
  All-select p [] h = tt
  All-select p (x ∷ xs) h = elim (Bool-cases (p x)) [
    | inl keep ↦ rw keep ((h.0, keep), All-select p xs h.1)
    | inr skip ↦ rw skip (All-select p xs h.1)
  ]

module _ {A : Type 0} (same : A → A → Bool) where
  -- No row is the same as a later one.
  abbrev pub Distinct : List A → Type 0
  Distinct [] = Unit
  Distinct (x ∷ xs) = (exists (same x) xs ≡ false) × Distinct xs

  exists-snoc_none :
      (p : A → Bool) (xs : List A) (z : A)
      → exists p xs ≡ false
      → p z ≡ false
      → exists p (xs ++ (z ∷ [])) ≡ false
  exists-snoc_none p [] z h k = ground (arith, k)
  exists-snoc_none p (x ∷ xs) z h k = ground (arith, k, exists-snoc_none p xs z)

  pub Distinct-snoc :
      ((x y : A) → same x y ≡ same y x)
      → (xs : List A) (z : A) → Distinct xs
      → exists (same z) xs ≡ false
      → Distinct (xs ++ (z ∷ []))
  Distinct-snoc commutes [] z h k = (refl, tt)
  Distinct-snoc commutes (x ∷ xs) z h k =
      let swapped = commutes x z in
      (
        exists-snoc_none (same x) xs z h.0 (ground arith),
        Distinct-snoc commutes xs z h.1 (ground arith),
      )

  exists-ext : (q r : A → Bool) (xs : List A) → ((x : A) → q x ≡ r x) → exists q xs ≡ exists r xs
  exists-ext q r [] k = refl
  exists-ext q r (x ∷ xs) k =
      let rest = exists-ext q r xs k in let here = k x in ground (arith, rest, here)

  -- A change that leaves the tested columns alone keeps the rows distinct.
  pub Distinct-update_where :
      (p : A → Bool) (f : A → A)
      → ((x y : A) → same (f x) y ≡ same x y)
      → ((x y : A) → same x (f y) ≡ same x y)
      → (xs : List A) → Distinct xs
      → Distinct (update_where p f xs)
  Distinct-update_where p f left right [] h = tt
  Distinct-update_where p f left right (x ∷ xs) h = elim (Bool-cases (p x)) [
    | inl hit ↦ rw hit (
      exists-update_where (same (f x)) p f xs (right (f x))
          ∙ exists-ext (same (f x)) (same x) xs (left x)
          ∙ h.0,
      Distinct-update_where p f left right xs h.1,
    )
    | inr miss ↦ rw miss (
      exists-update_where (same x) p f xs (right x) ∙ h.0,
      Distinct-update_where p f left right xs h.1,
    )
  ]

  exists-select_none :
      (q p : A → Bool) (xs : List A) → exists q xs ≡ false → exists q (select p xs) ≡ false
  exists-select_none q p [] h = refl
  exists-select_none q p (x ∷ xs) h = ground (arith, exists-select_none q p xs)

  pub Distinct-select : (p : A → Bool) (xs : List A) → Distinct xs → Distinct (select p xs)
  Distinct-select p [] h = tt
  Distinct-select p (x ∷ xs) h = elim (Bool-cases (p x)) [
    | inl keep ↦ rw keep (exists-select_none (same x) p xs h.0, Distinct-select p xs h.1)
    | inr skip ↦ rw skip (Distinct-select p xs h.1)
  ]
