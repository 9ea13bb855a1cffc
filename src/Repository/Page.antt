-- ===== src/Repository/Page.antt =====
-- `SELECT … WHERE … ORDER BY … LIMIT`: at most so many rows of the table, all of them pass, and none
-- that passes is left out but for rows that stand no later.
use webhook_service.Prelude.{
  ℕ, zero, suc, ◌≡◌, refl, ap, ◌≤◌, ◌⊎◌, Bool, true, List, [], ◌∷◌, All, take, length, select, inl,
  inr,
}
use webhook_service.Repository.Rows.{In, All-In, In-select, select-In, take-All, length-take-le}
use webhook_service.Repository.Sorting.{sort_by, sort_by-All, sort_by-Any, Ordered}

In-take :
    {A : Type 0} (le : A → A → Bool) (n : ℕ) (xs : List A) (x : A)
    → Ordered le xs
    → In x xs
    → In x (take n xs) ⊎ ((length (take n xs) ≡ n) × All (λ y. le y x ≡ true) (take n xs))
In-take le zero xs x o i = inr (refl, tt)
In-take le (suc n) [] x o i = absurd i
In-take le (suc n) (y ∷ ys) x o (inl e) = inl (inl e)
In-take le (suc n) (y ∷ ys) x o (inr i) = elim (In-take le n ys x o.1 i) [
  | inl j ↦ inl (inr j)
  | inr (full, before) ↦ inr (ap suc full, (All-In _ x ys o.0 i, before))
]

module _ {A : Type 0} (le : A → A → Bool) (p : A → Bool) (n : ℕ) (rows : List A) where
  pub page-In : All (λ x. In x rows × (p x ≡ true)) (take n (sort_by le (select p rows)))
  page-In =
      take-All _ n (sort_by le (select p rows))
        (sort_by-All le _ (select p rows) (select-In p rows))

  pub length-page-le : length (take n (sort_by le (select p rows))) ≤ n
  length-page-le = length-take-le n (sort_by le (select p rows))

  -- A row that passes is on the page, or the page is full of rows that stand no later.
  pub In-page :
      (x : A)
      → Ordered le (sort_by le (select p rows))
      → In x rows
      → p x ≡ true
      → let page = take n (sort_by le (select p rows)) in
        In x page ⊎ ((length page ≡ n) × All (λ y. le y x ≡ true) page)
  In-page x ordered i h =
      In-take le n (sort_by le (select p rows)) x ordered
        (sort_by-Any le (λ y. y ≡ x) (select p rows) (In-select p x rows i h))
