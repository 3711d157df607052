-- ===== src/Store/Queries/Pages.antt =====
-- Which rows a page has, whatever the order of rows with equal keys.
use banking_payments_api.Prelude.{
  ℕ, zero, suc, ◌+◌, ◌-◌, ◌≤◌, ◌<◌, ◌≡◌, refl, ◌∙◌, Bool, ◌&&◌, List, [], ◌∷◌, leb, ltb, ◌==◌,
  arith,
}
use banking_payments_api.Prelude.Lists.{length, All}
use banking_payments_api.Store.Queries.{
  take, drop, page, tally, Descending, rank, in_page, OrdersBy,
}

module _ {A : Type 0} (key : A → ℕ) where
  abbrev Strict : List A → Type 0
  Strict [] = Unit
  Strict (x ∷ xs) = All (λ y. key y < key x) xs × Strict xs

  -- the row's number in the list
  abbrev Ranked : (A → ℕ) → ℕ → List A → Type 0
  Ranked r i [] = Unit
  Ranked r i (x ∷ xs) = (r x ≡ i) × Ranked r (suc i) xs

  -- no key of the list is greater
  abbrev Tops : A → List A → Type 0
  Tops t [] = Unit
  Tops t (y ∷ _) = key t ≤ key y

  strictly_below :
      (k : ℕ) (xs : List A)
      → All (λ y. key y ≤ k) xs
      → tally (λ u. key u == k) xs ≡ 0
      → All (λ y. key y < k) xs
  strictly_below k [] h none_equal = tt
  strictly_below k (x ∷ xs) h none_equal = (ground arith, strictly_below k xs h.1 (ground arith))

  Descending-Strict :
      (xs : List A) → Descending key xs → ((t : A) → tally (λ u. key u == key t) xs ≤ 1) → Strict xs
  Descending-Strict [] d distinct = tt
  Descending-Strict (x ∷ xs) d distinct = (
    strictly_below (key x) xs d.0 (ground (arith, distinct x)),
    Descending-Strict xs d.1 (λ t. ground (arith, distinct t)),
  )

  rank_below : (t : A) (xs : List A) → All (λ y. key y < key t) xs → rank key xs t ≡ 0
  rank_below t [] h = refl
  rank_below t (x ∷ xs) h = ground (arith, rank_below t xs)

  Strict-Ranked :
      (r : A → ℕ) (i : ℕ) (xs : List A)
      → Strict xs
      → ((t : A) → Tops t xs → r t ≡ i + rank key xs t)
      → Ranked r i xs
  Strict-Ranked r i [] s h = tt
  Strict-Ranked r i (x ∷ []) s h = (ground (arith, h x), tt)
  Strict-Ranked r i (x ∷ z ∷ zs) s h = (
    ground (arith, h x, rank_below x (z ∷ zs)),
    Strict-Ranked r (suc i) (z ∷ zs) s.1 (λ t top. ground (arith, h t)),
  )

  -- a page of rows that stand by their numbers
  Ranked-page :
      (p : A → Bool) (r : A → ℕ) (lo hi i o l : ℕ) (xs : List A)
      → Ranked r i xs
      → o ≡ lo - i
      → l ≡ hi - (i + o)
      → tally p (take l (drop o xs)) ≡ tally (λ t. p t && (leb lo (r t) && ltb (r t) hi)) xs
  unfolding take drop
  Ranked-page p r lo hi i zero zero [] ranked eo el = refl
  Ranked-page p r lo hi i zero (suc l) [] ranked eo el = refl
  Ranked-page p r lo hi i (suc o) zero [] ranked eo el = refl
  Ranked-page p r lo hi i (suc o) (suc l) [] ranked eo el = refl
  Ranked-page p r lo hi i zero zero (x ∷ xs) ranked eo el =
      ground (arith, Ranked-page p r lo hi (suc i) zero zero xs)
  Ranked-page p r lo hi i zero (suc l) (x ∷ xs) ranked eo el =
      ground (arith, Ranked-page p r lo hi (suc i) zero l xs)
  Ranked-page p r lo hi i (suc o) l (x ∷ xs) ranked eo el =
      ground (arith, Ranked-page p r lo hi (suc i) o l xs)

module _ {A : Type 0} (key : A → ℕ) (sort : List A → List A) (sorts : OrdersBy key sort) where
  -- A page of rows with distinct keys has exactly the rows of which `offset` up to
  -- `offset + limit - 1` others have a greater key.
  pub page_rows :
      (p : A → Bool) (limit offset : ℕ) (rows : List A)
      → ((t : A) → tally (λ u. key u == key t) rows ≤ 1)
      → tally p (page limit offset (sort rows))
        ≡ tally (λ t. p t && in_page limit offset (rank key rows t)) rows
  unfolding page
  page_rows p limit offset rows distinct =
      let strict =
        Descending-Strict key (sort rows) (sorts.descending rows)
          (λ t. rw (sorts.same_rows (λ u. key u == key t) rows) (distinct t)) in
      let same_rank : (t : A) → rank key (sort rows) t ≡ rank key rows t =
        λ t. sorts.same_rows (λ u. ltb (key t) (key u)) rows in
      let ranked =
        Strict-Ranked key (λ t. rank key rows t) 0 (sort rows) strict
          (λ t top. omega (arith, same_rank t)) in
      Ranked-page key p (λ t. rank key rows t) offset (offset + limit) 0 offset limit (sort rows)
        ranked (omega arith) (omega arith)
      ∙ sorts.same_rows (λ t. p t && in_page limit offset (rank key rows t)) rows

module _ {A : Type 0} where
  pub length-take : (n : ℕ) (xs : List A) → length (take n xs) ≤ n
  unfolding take
  length-take zero xs = omega arith
  length-take (suc n) [] = omega arith
  length-take (suc n) (x ∷ xs) = omega (arith, length-take n xs)
