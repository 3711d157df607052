-- ===== src/Bank/Bounds.antt =====
-- How large a balance becomes, whatever happens at the bank.
use banking_payments_api.Prelude.{ℕ, ◌≡◌, true, some}
use banking_payments_api.Prelude.Int.{ℤ, pos, ◌+ℤ◌, ◌≤ℤ◌}
use banking_payments_api.Store.Tables.{find, All-find}
use banking_payments_api.Store.Models.{Database, Account, account_id}
use banking_payments_api.Store.Decimal.{fits_numeric}
use banking_payments_api.Ledger.{funds}
use banking_payments_api.Ledger.Sound.{IsSound, IsSolvent}
use banking_payments_api.Ledger.Bounds.{balance-le-funds, fits_of_le}
use banking_payments_api.Security.{Security}
use banking_payments_api.Routers.Transactions.{Encodings}
use banking_payments_api.Routers.Confirmation.{Gateway}
use banking_payments_api.Bank.{Steps, Steps-funds}

module _ (enc : Encodings) {Bytes : Type 0} (g : Gateway Bytes) (sec : Security) where
  -- From a sound database, after any steps of the bank, every balance is between nothing and the first
  -- funds with the successful deposits; and it fits Numeric(12, 2) if that sum does.
  pub Steps-bounds :
      {db db' : Database} {x : ℤ}
      → Steps enc g sec db x db'
      → IsSound db
      → (k : ℕ) (a : Account) → find k db'.accounts ≡ some a
      → (pos 0 ≤ℤ a.balance)
        × (a.balance ≤ℤ funds db +ℤ x)
        × (fits_numeric (funds db +ℤ x) ≡ true → fits_numeric a.balance ≡ true)
  Steps-bounds {db} {db'} {x} steps sound k a found =
      let (moved, kept) = Steps-funds enc g sec steps in
      let nonneg : pos 0 ≤ℤ a.balance =
        All-find IsSolvent k a db'.accounts (kept sound).solvent found in
      let below : a.balance ≤ℤ funds db +ℤ x =
        rw moved at (balance-le-funds db' (kept sound) k a found) in
      (nonneg, below, λ fits. fits_of_le a.balance (funds db +ℤ x) nonneg below fits)
