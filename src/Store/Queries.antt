-- ===== src/Store/Queries.antt =====
-- `order_by(….desc()).limit(…).offset(…)`: the pages of the listings. How PostgreSQL orders rows is a
-- parameter of the listings, with what it promises as a hypothesis.
pub mod Pages
use banking_payments_api.Prelude.{
  ℕ, zero, suc, ◌+◌, ◌-◌, ◌≤◌, ◌≡◌, Bool, ◌&&◌, Option, none, some, List, [], ◌∷◌, leb, ltb,
  if◌then◌else◌,
}
use banking_payments_api.Prelude.Int.{ℤ, pos, pos_part, ltb_ℤ}
use banking_payments_api.Prelude.Lists.{length, select, All}

module _ {A : Type 0} where
  -- `LIMIT n`
  unfoldable pub take : ℕ → List A → List A
  take zero xs = []
  take (suc n) [] = []
  take (suc n) (x ∷ xs) = x ∷ take n xs

  -- `OFFSET n`
  unfoldable pub drop : ℕ → List A → List A
  drop zero xs = xs
  drop (suc n) [] = []
  drop (suc n) (x ∷ xs) = drop n xs

  unfoldable pub page : ℕ → ℕ → List A → List A
  page limit offset rows = take limit (drop offset rows)

  -- how many rows pass a test
  abbrev pub tally : (A → Bool) → List A → ℕ
  tally p [] = 0
  tally p (x ∷ xs) = (if p x then 1 else 0) + tally p xs

  -- no row has a greater key than one before it
  abbrev pub Descending : (A → ℕ) → List A → Type 0
  Descending key [] = Unit
  Descending key (x ∷ xs) = All (λ y. key y ≤ key x) xs × Descending key xs

  -- how many rows have a greater key
  abbrev pub rank : (A → ℕ) → List A → A → ℕ
  rank key rows t = tally (λ u. ltb (key t) (key u)) rows

-- the numbers of a page
abbrev pub in_page : ℕ → ℕ → ℕ → Bool
in_page limit offset n = leb offset n && ltb n (offset + limit)

-- `ORDER BY key DESC`: the same rows, as often, with falling keys
pub record OrdersBy {A : Type 0} (key : A → ℕ) (sort : List A → List A) : Type 0 where
  pub same_rows : (p : A → Bool) (rows : List A) → tally p (sort rows) ≡ tally p rows
  pub descending : (rows : List A) → Descending key (sort rows)

-- `limit: Query(ge=1, le=100)` and `offset: Query(ge=0)`
unfoldable pub valid_limit : ℤ → Option ℕ
valid_limit limit =
    if ltb_ℤ limit (pos 1)
    then none
    else if ltb_ℤ (pos 100) limit
    then none
    else some (pos_part limit)

unfoldable pub valid_offset : ℤ → Option ℕ
valid_offset offset = if ltb_ℤ offset (pos 0) then none else some (pos_part offset)
