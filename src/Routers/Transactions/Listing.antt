-- ===== src/Routers/Transactions/Listing.antt =====
-- `list_my_transactions` of app/routers/transactions.py.
pub mod Rows
use banking_payments_api.Prelude.{ℕ, Option, none, some, List, map, ◌==◌}
use banking_payments_api.Prelude.Int.{ℤ}
use banking_payments_api.Prelude.Lists.{select}
use banking_payments_api.Store.Models.{User, Account, Transaction}
use banking_payments_api.Store.Errors.{http_exception}
use banking_payments_api.Store.Queries.{page, valid_limit, valid_offset}
use banking_payments_api.Store.Session.{Action, pure, throw, gets, ◌>>=◌}
use banking_payments_api.Dependencies.{get_current_account}
use banking_payments_api.Schemas.{TransactionOut, transaction_out}

-- A listing with the validated `limit` and `offset`, or the answer to a query that does not validate.
abbrev pub with_page : {A : Type 0} → (ℕ → ℕ → Action A) → Option ℕ → Option ℕ → Action A
with_page listing (some limit) (some offset) = listing limit offset
with_page listing _ _ = throw (http_exception 422 "Unprocessable Entity")

-- `ORDER BY created_at DESC` of transactions
module _ (newest_first : List Transaction → List Transaction) where
  -- `where(Transaction.account_id == account_id)`, ordered and cut; the response of each row
  unfoldable pub transactions_of : ℕ → ℕ → ℕ → Action (List TransactionOut)
  transactions_of account_id limit offset = gets (λ s. map transaction_out (
      page limit offset
        (newest_first (select (λ t. t.account_id == account_id) s.store.transactions))))

  unfoldable pub list_my_transactions : User → ℤ → ℤ → Action (List TransactionOut)
  list_my_transactions current_user limit offset = do
    account ← get_current_account current_user
    with_page (transactions_of account.id) (valid_limit limit) (valid_offset offset)
