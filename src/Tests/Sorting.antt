-- ===== src/Tests/Sorting.antt =====
-- A sort by falling keys: insertion, which keeps rows with equal keys in their order.
use banking_payments_api.Prelude.{
  ℕ, ◌+◌, ◌≤◌, ◌≡◌, refl, Bool, Bool-cases, inl, inr, List, [], ◌∷◌, ltb, if◌then◌else◌, arith,
}
use banking_payments_api.Prelude.Lists.{All}
use banking_payments_api.Store.Queries.{tally, Descending, OrdersBy}

module _ {A : Type 0} (key : A → ℕ) where
  abbrev pub insert : A → List A → List A
  insert x [] = x ∷ []
  insert x (y ∷ ys) = let rest = insert x ys in if ltb (key y) (key x) then x ∷ y ∷ ys else y ∷ rest

  abbrev pub sort : List A → List A
  sort [] = []
  sort (x ∷ xs) = insert x (sort xs)

  tally-insert :
      (p : A → Bool) (x : A) (xs : List A)
      → tally p (insert x xs) ≡ (if p x then 1 else 0) + tally p xs
  tally-insert p x [] = refl
  tally-insert p x (y ∷ ys) = ground (arith, tally-insert p x ys)

  tally-sort : (p : A → Bool) (xs : List A) → tally p (sort xs) ≡ tally p xs
  tally-sort p [] = refl
  tally-sort p (x ∷ xs) = omega (arith, tally-insert p x (sort xs), tally-sort p xs)

  All-insert :
      (k : ℕ) (x : A) (xs : List A)
      → key x ≤ k
      → All (λ y. key y ≤ k) xs
      → All (λ y. key y ≤ k) (insert x xs)
  All-insert k x [] le h = (le, tt)
  All-insert k x (y ∷ ys) le h = elim (Bool-cases (ltb (key y) (key x))) [
    | inl less ↦ rw less (le, h)
    | inr not_less ↦ rw not_less (h.0, All-insert k x ys le h.1)
  ]

  All-lower : (j k : ℕ) (xs : List A) → j ≤ k → All (λ y. key y ≤ j) xs → All (λ y. key y ≤ k) xs
  All-lower j k [] le h = tt
  All-lower j k (x ∷ xs) le h = (omega (arith, h.0), All-lower j k xs le h.1)

  Descending-insert : (x : A) (xs : List A) → Descending key xs → Descending key (insert x xs)
  Descending-insert x [] d = (tt, tt)
  Descending-insert x (y ∷ ys) d = elim (Bool-cases (ltb (key y) (key x))) [
    | inl less ↦
        let le : key y ≤ key x = ground arith in
        rw less ((le, All-lower (key y) (key x) ys le d.0), d)
    | inr not_less ↦
        rw not_less (All-insert (key y) x ys (ground arith) d.0, Descending-insert x ys d.1)
  ]

  Descending-sort : (xs : List A) → Descending key (sort xs)
  Descending-sort [] = tt
  Descending-sort (x ∷ xs) = Descending-insert x (sort xs) (Descending-sort xs)

  pub sort-OrdersBy : OrdersBy key sort
  sort-OrdersBy = record { same_rows = tally-sort; descending = Descending-sort }
