-- ===== src/Repository/Rows.antt =====
-- Rows of a table: what `WHERE`, `UPDATE` and `LIMIT` keep of them.
use webhook_service.Prelude.{
  ◌++◌, ℕ, zero, suc, ◌≤◌, ◌≡◌, Bool, true, false, List, [], ◌∷◌, arith, All, Any, take, length,
  select, Bool-cases, inl, inr, ap, ◌∙◌, subst, map, update_where, count_where, exists, refl,
  if◌then◌else◌,
}

pub take-All : {A : Type 0} (P : A → Type 0) (n : ℕ) (xs : List A) → All P xs → All P (take n xs)
take-All P zero xs h = tt
take-All P (suc n) [] h = tt
take-All P (suc n) (x ∷ xs) h = (h.0, take-All P n xs h.1)

pub length-take-le : {A : Type 0} (n : ℕ) (xs : List A) → length (take n xs) ≤ n
length-take-le zero xs = omega arith
length-take-le (suc n) [] = omega arith
length-take-le (suc n) (x ∷ xs) = omega (arith, length-take-le n xs)

pub select-All :
    {A : Type 0} (P : A → Type 0) (p : A → Bool) (xs : List A)
    → ((x : A) → p x ≡ true → P x)
    → All P (select p xs)
select-All P p [] f = tt
select-All P p (x ∷ xs) f = elim (Bool-cases (p x)) [
  | inl keep ↦ rw keep (f x keep, select-All P p xs f)
  | inr skip ↦ rw skip (select-All P p xs f)
]

-- `x` is a row of the table.
abbrev pub In : {A : Type 0} → A → List A → Type 0
In x xs = Any (λ y. y ≡ x) xs

select-In_of :
    {A : Type 0} (p : A → Bool) (table rows : List A)
    → ((x : A) → In x rows → In x table)
    → All (λ x. In x table × (p x ≡ true)) (select p rows)
select-In_of p table [] f = tt
select-In_of p table (x ∷ rows) f =
    let rest = select-In_of p table rows (λ y h. f y (inr h)) in
    elim (Bool-cases (p x)) [
      | inl keep ↦ rw keep ((f x (inl refl), keep), rest)
      | inr skip ↦ rw skip rest
    ]

-- The rows that a `WHERE` keeps are rows of the table that pass it.
pub select-In :
    {A : Type 0} (p : A → Bool) (xs : List A) → All (λ x. In x xs × (p x ≡ true)) (select p xs)
select-In p xs = select-In_of p xs xs (λ x h. h)

-- A row that passes is found changed in the table.
pub In-update_where :
    {A : Type 0} (p : A → Bool) (f : A → A) (x : A) (xs : List A)
    → In x xs
    → p x ≡ true
    → In (f x) (update_where p f xs)
In-update_where p f x [] h k = h
In-update_where p f x (y ∷ xs) (inl e) k = inl (rw e (rw k refl))
In-update_where p f x (y ∷ xs) (inr h) k = inr (In-update_where p f x xs h k)

-- A row of the updated table is a row of the old one, changed if it passes.
pub update_where-In :
    {A : Type 0} (p : A → Bool) (f : A → A) (y : A) (xs : List A)
    → In y (update_where p f xs)
    → (x : A) × In x xs × ((if p x then f x else x) ≡ y)
update_where-In p f y [] h = absurd h
update_where-In p f y (x ∷ xs) (inl e) = (x, inl refl, e)
update_where-In p f y (x ∷ xs) (inr h) = let (z, i, e) = update_where-In p f y xs h in (z, inr i, e)

pub update_where-none :
    {A : Type 0} (p : A → Bool) (f : A → A) (xs : List A)
    → ((x : A) → p x ≡ false)
    → update_where p f xs ≡ xs
update_where-none p f [] h = refl
update_where-none p f (x ∷ xs) h = rw (h x) (ap (◌∷◌ x) (update_where-none p f xs h))

pub All-In : {A : Type 0} (P : A → Type 0) (x : A) (xs : List A) → All P xs → In x xs → P x
All-In P x [] h i = absurd i
All-In P x (y ∷ ys) h (inl e) = subst P e h.0
All-In P x (y ∷ ys) h (inr i) = All-In P x ys h.1 i

pub exists-In :
    {A : Type 0} (p : A → Bool) (x : A) (xs : List A) → In x xs → p x ≡ true → exists p xs ≡ true
exists-In p x [] i h = absurd i
exists-In p x (y ∷ ys) (inl e) h = rw (ap p e ∙ h) refl
exists-In p x (y ∷ ys) (inr i) h = ground (arith, exists-In p x ys i h)

pub All-of_In : {A : Type 0} (P : A → Type 0) (xs : List A) → ((x : A) → In x xs → P x) → All P xs
All-of_In P [] f = tt
All-of_In P (x ∷ xs) f = (f x (inl refl), All-of_In P xs (λ y i. f y (inr i)))

pub In-map :
    {A B : Type 0} (g : A → B) (y : B) (xs : List A)
    → In y (map g xs)
    → (x : A) × In x xs × (g x ≡ y)
In-map g y [] h = absurd h
In-map g y (x ∷ xs) (inl e) = (x, inl refl, e)
In-map g y (x ∷ xs) (inr h) = let (z, i, e) = In-map g y xs h in (z, inr i, e)

-- A row that passes a `WHERE` is kept by it.
pub In-select :
    {A : Type 0} (p : A → Bool) (x : A) (xs : List A) → In x xs → p x ≡ true → In x (select p xs)
In-select p x [] i h = absurd i
In-select p x (y ∷ ys) (inl e) h = rw (ap p e ∙ h) (inl e)
In-select p x (y ∷ ys) (inr i) h = elim (Bool-cases (p y)) [
  | inl keep ↦ rw keep (inr (In-select p x ys i h))
  | inr skip ↦ rw skip (In-select p x ys i h)
]

-- A row that exists is found.
pub In-exists :
    {A : Type 0} (p : A → Bool) (xs : List A)
    → exists p xs ≡ true
    → (x : A) × In x xs × (p x ≡ true)
In-exists p [] h = absurd (cc)
In-exists p (x ∷ xs) h = elim (Bool-cases (p x)) [
  | inl here ↦ (x, inl refl, here)
  | inr later ↦ let (y, i, e) = In-exists p xs (rw later at h) in (y, inr i, e)
]

-- A row that is added hides none.
pub exists-snoc_keeps :
    {A : Type 0} (p : A → Bool) (xs : List A) (y : A)
    → exists p xs ≡ true
    → exists p (xs ++ (y ∷ [])) ≡ true
exists-snoc_keeps p [] y h = absurd (cc)
exists-snoc_keeps p (x ∷ xs) y h = ground (arith, exists-snoc_keeps p xs y)

-- A change that leaves the tested columns alone.
pub exists-update_where :
    {A : Type 0} (q p : A → Bool) (f : A → A) (xs : List A)
    → ((x : A) → q (f x) ≡ q x)
    → exists q (update_where p f xs) ≡ exists q xs
exists-update_where q p f [] k = refl
exists-update_where q p f (x ∷ xs) k =
    let rest = exists-update_where q p f xs k in let here = k x in ground (arith, rest, here)

-- Where no row is counted, none passes, and the other way round.
pub none_counted :
    {A : Type 0} (p : A → Bool) (xs : List A) (x : A) → count_where p xs ≡ 0 → In x xs → p x ≡ false
none_counted p [] x z i = absurd i
none_counted p (y ∷ xs) x z (inl e) = elim (Bool-cases (p y)) [
  | inl hit ↦ absurd (omega (arith, rw hit at z))
  | inr miss ↦ subst (λ v. p v ≡ false) e miss
]
none_counted p (y ∷ xs) x z (inr i) = none_counted p xs x (ground (arith, z)) i

pub count_none :
    {A : Type 0} (p : A → Bool) (xs : List A)
    → ((x : A) → In x xs → p x ≡ false)
    → count_where p xs ≡ 0
count_none p [] h = refl
count_none p (x ∷ xs) h = rw (h x (inl refl)) (count_none p xs (λ y i. h y (inr i)))
