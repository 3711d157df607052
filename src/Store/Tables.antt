-- ===== src/Store/Tables.antt =====
-- A database table: a list of rows, found and updated by primary key.
use mathlib.Core.Path.{subst}
use banking_payments_api.Prelude.{
  ℕ, ◌≡◌, ◌≢◌, refl, inl, inr, Bool-cases, Option, none, some, List, [], ◌∷◌, arith, ◌==◌,
  if◌then◌else◌,
}
use banking_payments_api.Prelude.Int.{ℤ, ◌+ℤ◌, int_laws}
use banking_payments_api.Prelude.Lists.{total, All}

-- A row type with its primary key.
pub record HasId (A : Type 0) : Type 0 where
  pub id_of : A → ℕ

module _ {A : Type 0} ⦃r : HasId A⦄ where
  -- `SELECT … WHERE id = k`
  abbrev pub find : ℕ → List A → Option A
  find k [] = none
  find k (x ∷ xs) = if r.id_of x == k then some x else find k xs

  -- `UPDATE … WHERE id = k`; ids are unique, so the first match is the only one
  abbrev pub update : ℕ → (A → A) → List A → List A
  update k g [] = []
  update k g (x ∷ xs) = if r.id_of x == k then g x ∷ xs else x ∷ update k g xs

  pub find-id : (k : ℕ) (x : A) (xs : List A) → find k xs ≡ some x → r.id_of x ≡ k
  find-id k x [] h = cc
  find-id k x (y ∷ ys) h = ground (arith, find-id k x ys)

  -- An update moves the sum by the change of the one row.
  pub total-update :
      (f : A → ℤ) (k : ℕ) (g : A → A) (x : A) (xs : List A)
      → find k xs ≡ some x
      → total f (update k g xs) +ℤ f x ≡ total f xs +ℤ f (g x)
  total-update f k g x [] h = cc
  total-update f k g x (y ∷ ys) h = grind (int_laws, total-update f k g x ys)

  pub All-find :
      (P : A → Type 0) (k : ℕ) (x : A) (xs : List A) → All P xs → find k xs ≡ some x → P x
  All-find P k x [] a h = cc
  All-find P k x (y ∷ ys) a h = elim (Bool-cases (r.id_of y == k)) [
    | inl same ↦ let p : y ≡ x = ground arith in subst P p a.0
    | inr other ↦ All-find P k x ys a.1 (ground arith)
  ]

  pub All-update :
      (P : A → Type 0) (k : ℕ) (g : A → A) (xs : List A)
      → All P xs
      → ((x : A) → find k xs ≡ some x → P (g x))
      → All P (update k g xs)
  All-update P k g [] a h = tt
  All-update P k g (y ∷ ys) a h = elim (Bool-cases (r.id_of y == k)) [
    | inl same ↦ rw same (h y (rw same), a.1)
    | inr other ↦ rw other (a.0, All-update P k g ys a.1 (λ x found. h x (rw other found)))
  ]

module _ {A : Type 0} ⦃r : HasId A⦄ (k : ℕ) (g : A → A)
    (keeps : (x : A) → r.id_of (g x) ≡ r.id_of x) where
  -- The updated row is found under its id, and no other find changes.
  pub find-update_self :
      (x : A) (xs : List A) → find k xs ≡ some x → find k (update k g xs) ≡ some (g x)
  find-update_self x [] h = cc
  find-update_self x (y ∷ ys) h = ground (arith, keeps y, find-update_self x ys)

  pub find-update_ne : (j : ℕ) (xs : List A) → j ≢ k → find j (update k g xs) ≡ find j xs
  find-update_ne j [] h = refl
  find-update_ne j (y ∷ ys) h = ground (arith, keeps y, find-update_ne j ys h)

  pub find-update_inv :
      (z : A) (xs : List A)
      → find k (update k g xs) ≡ some z
      → (x : A) × (find k xs ≡ some x) × (z ≡ g x)
  find-update_inv z [] h = cc
  find-update_inv z (y ∷ ys) h = elim (Bool-cases (r.id_of y == k)) [
    | inl same ↦ (y, ground arith, ground (arith, keeps y))
    | inr other ↦ let (x, found, e) = find-update_inv z ys (ground arith) in (x, ground arith, e)
  ]
