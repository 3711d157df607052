-- ===== src/Routers/Transactions/Queries.antt =====
-- The look-ups of the money routes write nothing.
use Prim.Native.String.{String}
use text.Mathlib.Text.{◌==◌ as str_eq}
use banking_payments_api.Prelude.{ℕ, refl, Option, none, some, ◌==◌}
use banking_payments_api.Prelude.Lists.{select}
use banking_payments_api.Store.Schema.{same_key}
use banking_payments_api.Store.Models.{Account, User}
use banking_payments_api.Store.Session.{Session, select_one_account}
use banking_payments_api.Store.Session.Loading.{IsClean}
use banking_payments_api.Store.Session.Reading.{
  Reads, bind-Reads, select_one_account-Reads, scalar_one_or_none-Reads,
}
use banking_payments_api.Dependencies.{get_current_account, or_404}
use banking_payments_api.Idempotency.{get_existing_idempotency_key}
use banking_payments_api.Payments.{get_account_by_number}

or_404-Reads : (o : Option Account) (s : Session) → IsClean s → Reads s (or_404 o s)
or_404-Reads none s clean = (refl, clean)
or_404-Reads (some a) s clean = (refl, clean)

pub get_current_account-Reads :
    (user : User) (s : Session) → IsClean s → Reads s (get_current_account user s)
unfolding get_current_account
get_current_account-Reads user s clean =
    bind-Reads (select_one_account (λ a. a.user_id == user.id)) or_404 s
      (select_one_account-Reads (λ a. a.user_id == user.id) s clean) or_404-Reads

pub get_account_by_number-Reads :
    (number : String) (s : Session) → IsClean s → Reads s (get_account_by_number number s)
unfolding get_account_by_number
get_account_by_number-Reads number s clean =
    select_one_account-Reads (λ a. str_eq a.account_number number) s clean

pub get_existing_idempotency_key-Reads :
    (user : ℕ) (key endpoint : String) (s : Session)
    → IsClean s
    → Reads s (get_existing_idempotency_key user key endpoint s)
unfolding get_existing_idempotency_key
get_existing_idempotency_key-Reads user key endpoint s clean =
    scalar_one_or_none-Reads (select (same_key user key endpoint) s.store.idempotency_keys) s clean
