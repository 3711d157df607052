-- ===== src/Dependencies.antt =====
-- app/dependencies.py: the user of a token, and that user's account, in the session of the request.
-- The header of a 401 is left out.
use Prim.Native.String.{String}
use text.Mathlib.Text.{◌==◌ as str_eq}
use banking_payments_api.Security.{Security, Decoded, payload, expired_signature, invalid_token}
use banking_payments_api.Prelude.{Bool, false, if◌then◌else◌, not, ℕ, Option, none, some, ◌==◌}
use banking_payments_api.Prelude.Lists.{select}
use banking_payments_api.Store.Models.{Account, User, account_id}
use banking_payments_api.Store.Errors.{http_exception}
use banking_payments_api.Store.Session.{
  Action, pure, throw, ◌>>=◌, select_one_account, select_account, gets, scalar_one_or_none,
}

-- `if account is None: raise HTTPException(404)`
abbrev pub or_404 : Option Account → Action Account
or_404 none = throw (http_exception 404 "Cont inexistent")
or_404 (some account) = pure account

unfoldable pub get_current_account : User → Action Account
get_current_account current_user = do
  account ← select_one_account (λ a. a.user_id == current_user.id)
  or_404 account

-- `db.get(Account, account_id)`
unfoldable pub get_account_or_404 : ℕ → Action Account
get_account_or_404 account_id = do account ← select_account account_id; or_404 account

abbrev invalid_credentials : {A : Type 0} → Action A
invalid_credentials = throw (http_exception 401 "Nu s-au putut valida credențialele")

-- `payload.get("type") == "access"`
unfoldable pub is_access : Option String → Bool
is_access none = false
is_access (some type) = str_eq type "access"

unfoldable pub user_or_401 : Option User → Action User
user_or_401 none = invalid_credentials
user_or_401 (some user) = pure user

unfoldable pub user_of_sub : Option ℕ → Action User
unfolding user_or_401
user_of_sub none = invalid_credentials
user_of_sub (some user_id) = do
  rows ← gets (λ s. select (λ (u : User). u.id == user_id) s.store.users)
  user ← scalar_one_or_none rows
  user_or_401 user

unfoldable pub user_of_token : Decoded → Action User
unfolding user_of_sub is_access
user_of_token expired_signature = throw (http_exception 401 "Token expirat")
user_of_token invalid_token = invalid_credentials
user_of_token (payload p) =
    if not (is_access p.type) then invalid_credentials else user_of_sub p.sub

unfoldable pub get_current_user : Security → String → Action User
unfolding user_of_token
get_current_user sec token = do now ← gets (λ s. s.now); user_of_token (sec.decode_token token now)

unfoldable pub get_current_admin : User → Action User
get_current_admin current_user =
    if not current_user.is_admin
    then throw (http_exception 403 "Nu ai permisiunea necesară pentru această acțiune")
    else pure current_user
