-- ===== src/Prelude/Counting.antt =====
-- Counting and selecting rows by tests that imply one another.
use Prim.Native.Nat.{suc, ◌≤◌}
use mathlib.Core.Path.{◌≡◌, refl, ap}
use mathlib.Core.Logic.{inl, inr}
use mathlib.Core.Bool.{Bool, true, false}
use mathlib.Core.List.{List, [], ◌∷◌}
use native.Mathlib.Omega.{arith}
use webhook_service.Prelude.Tests.{Bool-cases}
use webhook_service.Prelude.Lists.{All, select, count_where}

-- A count of entries that a weaker test keeps.
pub count-select :
    {A : Type 0} (p q : A → Bool) (xs : List A)
    → ((x : A) → p x ≡ true → q x ≡ true)
    → count_where p (select q xs) ≡ count_where p xs
count-select p q [] f = refl
count-select p q (x ∷ xs) f =
    let rest = count-select p q xs f in
    elim (Bool-cases (p x)) [
      | inl keep ↦ rw (f x keep) (rw keep (ap suc rest))
      | inr drop ↦ elim (Bool-cases (q x)) [
        | inl k ↦ rw k (rw drop rest)
        | inr k ↦ rw (k, drop) rest
      ]
    ]

pub count-le :
    {A : Type 0} (p q : A → Bool) (xs : List A)
    → ((x : A) → p x ≡ true → q x ≡ true)
    → count_where p xs ≤ count_where q xs
count-le p q [] f = omega arith
count-le p q (x ∷ xs) f =
    let rest = count-le p q xs f in
    elim (Bool-cases (p x)) [
      | inl keep ↦ rw (f x keep, keep) (omega (arith, rest))
      | inr drop ↦ elim (Bool-cases (q x)) [
        | inl k ↦ rw (k, drop) (omega (arith, rest))
        | inr k ↦ rw (k, drop) rest
      ]
    ]

pub select-ext :
    {A : Type 0} (p q : A → Bool) (xs : List A) → ((x : A) → p x ≡ q x) → select p xs ≡ select q xs
select-ext p q [] f = refl
select-ext p q (x ∷ xs) f = rw (f x, select-ext p q xs f) refl

pub select-all :
    {A : Type 0} (p : A → Bool) (xs : List A) → All (λ x. p x ≡ true) xs → select p xs ≡ xs
select-all p [] h = refl
select-all p (x ∷ xs) h = rw h.0 (ap (◌∷◌ x) (select-all p xs h.1))

pub count-none :
    {A : Type 0} (p : A → Bool) (xs : List A) → All (λ x. p x ≡ false) xs → count_where p xs ≡ 0
count-none p [] h = refl
count-none p (x ∷ xs) h = rw h.0 (count-none p xs h.1)

pub All-implied :
    {A : Type 0} {P Q : A → Type 0} (xs : List A) → ((x : A) → P x → Q x) → All P xs → All Q xs
All-implied [] f h = tt
All-implied (x ∷ xs) f h = (f x h.0, All-implied xs f h.1)
