-- ===== src/Repository/Sorting.antt =====
-- `ORDER BY`: a stable insertion sort by a Boolean order.
use webhook_service.Prelude.{
  suc, ◌≡◌, refl, ap, ◌∙◌, ◌⊎◌, Bool, List, [], ◌∷◌, All, Any, length, Bool-cases, inl, inr,
  if◌then◌else◌, true, false,
}

module _ {A : Type 0} (le : A → A → Bool) where
  unfoldable pub insert_by : A → List A → List A
  insert_by x [] = x ∷ []
  insert_by x (y ∷ ys) = let rest = insert_by x ys in if le x y then x ∷ y ∷ ys else y ∷ rest

  unfoldable pub sort_by : List A → List A
  unfolding insert_by
  sort_by [] = []
  sort_by (x ∷ xs) = insert_by x (sort_by xs)

  insert_by-All : (P : A → Type 0) (x : A) (ys : List A) → P x → All P ys → All P (insert_by x ys)
  unfolding insert_by
  insert_by-All P x [] p h = (p, tt)
  insert_by-All P x (y ∷ ys) p h = elim (Bool-cases (le x y)) [
    | inl first ↦ rw first (p, h)
    | inr after ↦ rw after (h.0, insert_by-All P x ys p h.1)
  ]

  -- Sorting keeps what holds of every row.
  pub sort_by-All : (P : A → Type 0) (xs : List A) → All P xs → All P (sort_by xs)
  unfolding sort_by
  sort_by-All P [] h = tt
  sort_by-All P (x ∷ xs) h = insert_by-All P x (sort_by xs) h.0 (sort_by-All P xs h.1)

  length-insert_by : (x : A) (ys : List A) → length (insert_by x ys) ≡ suc (length ys)
  unfolding insert_by
  length-insert_by x [] = refl
  length-insert_by x (y ∷ ys) = elim (Bool-cases (le x y)) [
    | inl first ↦ rw first refl
    | inr after ↦ rw after (ap suc (length-insert_by x ys))
  ]

  -- Sorting loses no row and makes none.
  pub length-sort_by : (xs : List A) → length (sort_by xs) ≡ length xs
  unfolding sort_by
  length-sort_by [] = refl
  length-sort_by (x ∷ xs) = length-insert_by x (sort_by xs) ∙ ap suc (length-sort_by xs)

  Any-insert_by : (P : A → Type 0) (x : A) (ys : List A) → P x ⊎ Any P ys → Any P (insert_by x ys)
  unfolding insert_by
  Any-insert_by P x [] h = h
  Any-insert_by P x (y ∷ ys) h = elim (Bool-cases (le x y)) [
    | inl first ↦ rw first h
    | inr after ↦ rw after (elim h [
      | inl p ↦ inr (Any-insert_by P x ys (inl p))
      | inr (inl q) ↦ inl q
      | inr (inr q) ↦ inr (Any-insert_by P x ys (inr q))
    ])
  ]

  pub sort_by-Any : (P : A → Type 0) (xs : List A) → Any P xs → Any P (sort_by xs)
  unfolding sort_by
  sort_by-Any P [] h = h
  sort_by-Any P (x ∷ xs) (inl p) = Any-insert_by P x (sort_by xs) (inl p)
  sort_by-Any P (x ∷ xs) (inr q) = Any-insert_by P x (sort_by xs) (inr (sort_by-Any P xs q))

  -- Each row stands no later than those after it.
  abbrev pub Ordered : List A → Type 0
  Ordered [] = Unit
  Ordered (x ∷ xs) = All (λ y. le x y ≡ true) xs × Ordered xs

  module _ (total : (x y : A) → le x y ≡ false → le y x ≡ true)
      (trans : (x y z : A) → le x y ≡ true → le y z ≡ true → le x z ≡ true) where
    All-before :
        (x y : A) (ys : List A)
        → le x y ≡ true
        → All (λ z. le y z ≡ true) ys
        → All (λ z. le x z ≡ true) ys
    All-before x y [] h all = tt
    All-before x y (z ∷ ys) h all = (trans x y z h all.0, All-before x y ys h all.1)

    insert_by-Ordered : (x : A) (ys : List A) → Ordered ys → Ordered (insert_by x ys)
    unfolding insert_by
    insert_by-Ordered x [] o = (tt, tt)
    insert_by-Ordered x (y ∷ ys) o = elim (Bool-cases (le x y)) [
      | inl first ↦ rw first ((first, All-before x y ys first o.0), o)
      | inr after ↦ rw after (
        insert_by-All (λ z. le y z ≡ true) x ys (total x y after) o.0,
        insert_by-Ordered x ys o.1,
      )
    ]

    pub sort_by-Ordered : (xs : List A) → Ordered (sort_by xs)
    unfolding sort_by
    sort_by-Ordered [] = tt
    sort_by-Ordered (x ∷ xs) = insert_by-Ordered x (sort_by xs) (sort_by-Ordered xs)
