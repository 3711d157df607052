-- ===== src/Routers/Accounts.antt =====
-- app/routers/accounts.py and app/schemas/account.py.
use Prim.Native.String.{String}
use banking_payments_api.Prelude.{ℕ}
use banking_payments_api.Prelude.Int.{ℤ}
use banking_payments_api.Store.Models.{User, Account}
use banking_payments_api.Store.Session.{Action, pure, ◌>>=◌}
use banking_payments_api.Dependencies.{get_current_account}

pub record AccountOut : Type 0 where
  pub id : ℕ
  pub account_number : String
  pub balance : ℤ
  pub currency : String

-- from the attributes
abbrev pub account_out : Account → AccountOut
account_out a = record {
  id = a.id;
  account_number = a.account_number;
  balance = a.balance;
  currency = a.currency;
}

unfoldable pub get_my_balance : User → Action AccountOut
get_my_balance current_user = do
  account ← get_current_account current_user
  pure (account_out account)
