-- ===== src/Ledger/Bounds.antt =====
-- No balance, and no balance with a pending amount, is more than the funds of a sound bank.
use banking_payments_api.Prelude.{
  ℕ, ◌≡◌, refl, true, some, List, [], ◌∷◌, arith, inl, inr, Bool-cases, ◌==◌,
}
use banking_payments_api.Prelude.Int.{ℤ, pos, ◌+ℤ◌, ◌≤ℤ◌, int_laws}
use banking_payments_api.Prelude.Lists.{total, All}
use banking_payments_api.Store.Tables.{HasId, find}
use banking_payments_api.Store.Models.{
  Database, Account, Transaction, account_id, transaction_id, is_pending,
}
use banking_payments_api.Store.Decimal.{fits_numeric}
use banking_payments_api.Ledger.{balance_of, held_by, funds}
use banking_payments_api.Ledger.Sound.{IsSolvent, IsPositive, IsSound}

module _ {A : Type 0} (f : A → ℤ) (P : A → Type 0) (nonneg : (x : A) → P x → pos 0 ≤ℤ f x) where
  total_nonneg : (xs : List A) → All P xs → pos 0 ≤ℤ total f xs
  total_nonneg [] h = omega arith
  total_nonneg (x ∷ xs) h = omega (int_laws, nonneg x h.0, total_nonneg xs h.1)

  -- a row's amount is at most the sum
  find-le-total :
      ⦃r : HasId A⦄ (k : ℕ) (x : A) (xs : List A)
      → All P xs
      → find k xs ≡ some x
      → f x ≤ℤ total f xs
  find-le-total ⦃r⦄ k x [] h found = cc
  find-le-total ⦃r⦄ k x (y ∷ ys) h found = elim (Bool-cases (r.id_of y == k)) [
    | inl same ↦ let p : y ≡ x = ground arith in rw (← p) (omega (int_laws, total_nonneg ys h.1))
    | inr other ↦ omega (int_laws, nonneg y h.0, find-le-total k x ys h.1 (ground arith))
  ]

held_by-nonneg : (t : Transaction) → IsPositive t → pos 0 ≤ℤ held_by t
unfolding held_by
held_by-nonneg t h = ground arith

module _ (db : Database) (sound : IsSound db) where
  pub balance-le-funds : (k : ℕ) (a : Account) → find k db.accounts ≡ some a → a.balance ≤ℤ funds db
  unfolding funds
  balance-le-funds k a held = omega (
    int_laws,
    find-le-total balance_of IsSolvent (λ x h. h) k a db.accounts sound.solvent held,
    total_nonneg held_by IsPositive held_by-nonneg db.transactions sound.positive,
  )

  -- a pending amount can be added to any balance
  pub balance_and_pending-le-funds :
      (k j : ℕ) (a : Account) (t : Transaction)
      → find k db.accounts ≡ some a
      → find j db.transactions ≡ some t
      → is_pending t.status ≡ true
      → a.balance +ℤ t.amount ≤ℤ funds db
  unfolding funds
  balance_and_pending-le-funds k j a t held there waiting =
      let reserves : held_by t ≡ t.amount = unfold held_by in rw waiting refl in
      omega (
        int_laws,
        find-le-total balance_of IsSolvent (λ x h. h) k a db.accounts sound.solvent held,
        (rw reserves at (
            find-le-total held_by IsPositive held_by-nonneg j t db.transactions sound.positive
              there)),
      )

pub fits_of_le : (x y : ℤ) → pos 0 ≤ℤ x → x ≤ℤ y → fits_numeric y ≡ true → fits_numeric x ≡ true
unfolding fits_numeric
fits_of_le x y nonneg le fits = ground arith
