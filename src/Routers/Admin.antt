-- ===== src/Routers/Admin.antt =====
-- app/routers/admin.py and app/schemas/admin.py. `get_current_admin` stands before every route.
pub mod Access
use Prim.Native.String.{String}
use banking_payments_api.Prelude.{ℕ, Option, none, some, List, [], ◌∷◌, ◌++◌, map, ◌==◌}
use banking_payments_api.Prelude.Int.{ℤ}
use banking_payments_api.Prelude.Lists.{select}
use banking_payments_api.Store.Models.{User, Account, Transaction}
use banking_payments_api.Store.Queries.{page, valid_limit, valid_offset}
use banking_payments_api.Store.Session.{Session, Action, pure, gets, ◌>>=◌, load_row}
use banking_payments_api.Security.{Security}
use banking_payments_api.Dependencies.{get_current_user, get_current_admin, get_account_or_404}
use banking_payments_api.Schemas.{TransactionOut, transaction_out}
use banking_payments_api.Routers.Transactions.Listing.{with_page, transactions_of}

pub record AdminAccountOut : Type 0 where
  pub id : ℕ
  pub account_number : String
  pub balance : ℤ
  pub currency : String
  pub owner_email : String
  pub owner_full_name : String
  pub created_at : ℕ

abbrev pub admin_account_out : Account → User → AdminAccountOut
admin_account_out account user = record {
  id = account.id;
  account_number = account.account_number;
  balance = account.balance;
  currency = account.currency;
  owner_email = user.email;
  owner_full_name = user.full_name;
  created_at = account.created_at;
}

-- `join(User, User.id == Account.user_id)`
unfoldable pub join_users : List Account → List User → List (Account × User)
join_users [] users = []
join_users (account ∷ accounts) users =
    map (λ u. (account, u)) (select (λ u. u.id == account.user_id) users)
    ++ join_users accounts users

abbrev pub shown : User → Option Account → List AdminAccountOut → List AdminAccountOut
shown user none rest = rest
shown user (some account) rest = admin_account_out account user ∷ rest

-- the objects of the joined rows
unfoldable pub admin_accounts : List (Account × User) → Action (List AdminAccountOut)
admin_accounts [] = pure []
admin_accounts ((row, user) ∷ rows) = do
  account ← load_row (some row)
  rest ← admin_accounts rows
  pure (shown user account rest)

module _ (newest_accounts_first : List (Account × User) → List (Account × User))
    (newest_first : List Transaction → List Transaction) (sec : Security) (token : String) where
  -- `dependencies=[Depends(get_current_admin)]`
  unfoldable pub for_admin : {A : Type 0} → Action A → Action A
  for_admin route = do
    current_user ← get_current_user sec token
    get_current_admin current_user >>= λ _. route

  unfoldable pub list_recent_accounts : ℤ → ℤ → Action (List AdminAccountOut)
  unfolding admin_accounts
  list_recent_accounts limit offset = for_admin (
      with_page
        (λ n o.
          gets (λ s. page n o (newest_accounts_first (join_users s.store.accounts s.store.users)))
          >>= admin_accounts)
        (valid_limit limit) (valid_offset offset))

  unfoldable pub list_recent_transactions : ℤ → ℤ → Action (List TransactionOut)
  list_recent_transactions limit offset = for_admin (
      with_page
        (λ n o. gets (λ s. map transaction_out (page n o (newest_first s.store.transactions))))
        (valid_limit limit) (valid_offset offset))

  unfoldable pub list_account_transactions : ℕ → ℤ → ℤ → Action (List TransactionOut)
  list_account_transactions account_id limit offset = for_admin (do
    account ← get_account_or_404 account_id
    with_page (transactions_of newest_first account.id) (valid_limit limit) (valid_offset offset))
