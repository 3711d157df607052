-- ===== src/Tests/Access.antt =====
-- Carol registers, logs in and reads with her token; Ana sees her transactions; the listings of the
-- administration open to an administrator.
use banking_payments_api.Store.Decimal.{fits_numeric}
use banking_payments_api.Store.Schema.{account_error, apply, flush, refresh_token_error, user_error}
use Prim.Native.String.{String}
use banking_payments_api.Prelude.{
  ℕ, ◌+◌, ◌*◌, ◌≤◌, ◌≡◌, refl, Option, some, Bool, true, ◌&&◌, List, [], ◌∷◌, false, arith, ltb,
  ◌==◌, if◌then◌else◌,
}
use banking_payments_api.Prelude.Int.{pos}
use banking_payments_api.Prelude.Lists.{length}
use banking_payments_api.Store.Models.{User, Account, Transaction}
use banking_payments_api.Store.Errors.{ok, raise, http_exception}
use banking_payments_api.Store.Session.{
  Session, open_session, commit, select_account, select_one_account,
}
use banking_payments_api.Store.Session.Loading.{open_session-IsClean}
use banking_payments_api.Store.Queries.{tally, rank, in_page, valid_limit, valid_offset}
use banking_payments_api.Schemas.{TransactionOut, transaction_out}
use banking_payments_api.Security.{create_access_token, create_refresh_token, hash_token}
use banking_payments_api.Dependencies.{get_current_user, get_current_account}
use banking_payments_api.Routers.Auth.{
  TokenResponse, UserCreate, login, issue, register, or_http, authenticate,
}
use banking_payments_api.Routers.Auth.Login.{
  logged_in as admitted_login, login_admits, registration_admits,
}
use banking_payments_api.Routers.Auth.Validation.{
  user_out, register_request, register_validated, validate_user,
}
use banking_payments_api.Routers.Transactions.Listing.{list_my_transactions, transactions_of}
use banking_payments_api.Routers.Transactions.Listing.Rows.{own, created, list_my_transactions_rows}
use banking_payments_api.Routers.Admin.{
  list_recent_accounts, list_recent_transactions, list_account_transactions,
}
use banking_payments_api.Routers.Admin.Access.{IsGuarded, listings-IsGuarded}
use banking_payments_api.Tests.Bank.{ana, bob, bank, sent, session, ana_account}
use banking_payments_api.Tests.Auth.{carol, carol_user}
use banking_payments_api.Tests.Tokens.{tokens, tokens-IsLawful}
use banking_payments_api.Tests.Sorting.{sort, sort-OrdersBy}

abbrev newest_account : Account × User → ℕ
newest_account (account, _) = account.created_at

abbrev ana_loaded : Session
ana_loaded = (list_my_transactions (sort created) ana (pos 20) (pos 0) session).1

ana_tokens : TokenResponse
ana_tokens = record { access_token = create_access_token tokens 1 false 300; refresh_token = "t2" }

abbrev ana_in : Session
ana_in = (login tokens "ana@example.com" "a" 52 3 session).1

logged_in : login tokens "ana@example.com" "a" 52 3 session ≡ (ok ana_tokens, ana_in)
unfolding login issue or_http commit flush apply refresh_token_error create_refresh_token hash_token
    ana_tokens
logged_in = refl

login_admits_example :
    (true ≡ true)
    × (get_current_user tokens ana_tokens.access_token (open_session 400 bank) ≡ (
      if ltb 400 (300 + 30 * 60) then ok ana else raise (http_exception 401 "Token expirat"),
      open_session 400 bank,
    ))
login_admits_example =
    login_admits tokens tokens-IsLawful "ana@example.com" "a" 52 3 ana session ana_in
      (open_session 400 bank) ana_tokens refl logged_in refl (omega arith)

-- Carol writes the domain in capitals, which `EmailStr` does not keep.
abbrev address : String → Option String
address _ = some "carol@example.com"

abbrev typed : UserCreate
typed = record carol { email = "carol@EXAMPLE.com" }

abbrev carol_in : Session
carol_in = (register_request address tokens typed 3 13 "RO13" session).1

carol_registered :
    register_request address tokens typed 3 13 "RO13" session ≡ (ok (user_out carol_user), carol_in)
unfolding register_request register_validated validate_user register or_http commit flush apply
    user_error account_error fits_numeric
carol_registered = refl

abbrev next_day : Session
next_day = open_session 90000 carol_in.store

registration_admits_example :
    login tokens "carol@example.com" "12345678" 53 4 next_day
    ≡ admitted_login tokens 3 false 53 4 next_day
unfolding create_refresh_token hash_token refresh_token_error register_request register_validated
    validate_user register or_http commit flush apply user_error account_error fits_numeric
registration_admits_example =
    registration_admits tokens tokens-IsLawful address typed 3 13 53 4 "RO13" session carol_in
      next_day (user_out carol_user) refl carol_registered refl refl refl

-- She cannot log in with what she wrote.
carol_as_typed :
    login tokens "carol@EXAMPLE.com" "12345678" 53 4 next_day
    ≡ (raise (http_exception 401 "Email sau parolă incorecte"), next_day)
unfolding login register_request register_validated validate_user register or_http commit flush
    apply user_error account_error fits_numeric authenticate
carol_as_typed = refl

own_created : own 11 bank.transactions ≡ sent ∷ []
own_created = refl

one_created :
    (t : Transaction) → tally (λ u. u.created_at == t.created_at) (own 11 bank.transactions) ≤ 1
one_created t = ground arith

list_my_transactions_rows_example :
    (answer : List TransactionOut) × (list_my_transactions
        (sort created)
        ana
        (pos 20)
        (pos 0)
        session
      ≡ (ok answer, ana_loaded))
    × (length answer ≤ 20)
    × (20 ≤ 100)
    × ((p : TransactionOut → Bool)
        → tally p answer
          ≡ tally
              (λ t.
                t.account_id == 11
                && (p (transaction_out t)
                    && in_page 20 0 (rank created (own 11 bank.transactions) t)))
              bank.transactions)
unfolding get_current_account select_one_account select_account list_my_transactions valid_limit
    valid_offset transactions_of
list_my_transactions_rows_example =
    list_my_transactions_rows (sort created) ana (pos 20) (pos 0) 20 0 ana_account session
      ana_loaded (sort-OrdersBy created) refl refl refl one_created

abbrev boss : User
boss = record ana { is_admin = true }

abbrev head_office : Session
head_office = open_session 300 (record bank { users = boss ∷ bob ∷ [] })

abbrev boss_token : String
boss_token = create_access_token tokens 1 true 200

listings-IsGuarded_example :
    IsGuarded tokens boss_token head_office (
      list_recent_accounts
        (sort newest_account)
        (sort created)
        tokens
        boss_token
        (pos 20)
        (pos 0)
        head_office)
    × IsGuarded tokens boss_token head_office (
        list_recent_transactions
          (sort newest_account)
          (sort created)
          tokens
          boss_token
          (pos 20)
          (pos 0)
          head_office)
    × IsGuarded tokens boss_token head_office (
        list_account_transactions
          (sort newest_account)
          (sort created)
          tokens
          boss_token
          11
          (pos 20)
          (pos 0)
          head_office)
listings-IsGuarded_example =
    listings-IsGuarded tokens boss_token (sort newest_account) (sort created) 11 (pos 20) (pos 0)
      head_office (open_session-IsClean 300 (record bank { users = boss ∷ bob ∷ [] }))
