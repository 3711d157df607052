-- ===== src/Tests/Auth.antt =====
-- Ana refreshes her token, or logs out, and tries the old token again.
use banking_payments_api.Store.Decimal.{fits_numeric}
use banking_payments_api.Store.Schema.{apply, flush, refresh_token_error, account_error, user_error}
use Prim.Native.String.{String}
use banking_payments_api.Prelude.{◌≡◌, refl, true, some, [], ◌∷◌}
use banking_payments_api.Store.Models.{User, RefreshToken}
use banking_payments_api.Store.Errors.{ok, raise, http_exception}
use banking_payments_api.Store.Session.{Session, open_session, commit}
use banking_payments_api.Security.{
  Security, payload, create_access_token, create_refresh_token, hash_token,
}
use banking_payments_api.Routers.Auth.{
  new_token, refresh_token_endpoint, logout, issue, or_http, UserCreate, new_user, new_account,
  register,
}
use banking_payments_api.Routers.Auth.Rotation.{logout_revokes}
use banking_payments_api.Routers.Auth.Renewal.{refreshed_once}
use banking_payments_api.Routers.Auth.Registration.{Registered, registration_opens}
use banking_payments_api.Ledger.{funds}
use banking_payments_api.Ledger.Sound.{IsSound}
use banking_payments_api.Tests.Bank.{bank}

-- a token is its own digest; every token is Ana's, and new ones are "t2"
abbrev pub security : Security
security = record {
  hash_password = λ p. p;
  verify_password = λ _ _. true;
  sha256 = λ t. t;
  encode_access = λ _ _ _ _. "a";
  encode_refresh = λ _ _ _. "t2";
  decode_token = λ _ _. payload (record { type = some "refresh"; sub = some 1 });
  access_token_expire_minutes = 30;
  refresh_token_expire_days = 7;
}

abbrev pub stored : RefreshToken
stored = new_token 50 1 "t1" 0 604800

abbrev session : Session
session = open_session 300 (record bank { refresh_tokens = stored ∷ [] })

abbrev after_refresh : Session
after_refresh = (refresh_token_endpoint security "t1" 51 1 session).1

first_refresh :
    refresh_token_endpoint security "t1" 51 1 session
    ≡ (ok (record { access_token = "a"; refresh_token = "t2" }), after_refresh)
unfolding refresh_token_endpoint hash_token issue or_http commit flush apply refresh_token_error
    create_refresh_token create_access_token
first_refresh = refl

refreshed_once_example :
    (detail : String) × (refresh_token_endpoint security "t1" 52 2 after_refresh
      ≡ (raise (http_exception 401 detail), after_refresh))
unfolding hash_token
refreshed_once_example =
    refreshed_once security "t1" stored 51 1 52 2 session after_refresh after_refresh
      (record { access_token = "a"; refresh_token = "t2" }) refl refl refl first_refresh refl

abbrev after_logout : Session
after_logout = (logout security "t1" session).1

logout_revokes_example :
    ((logout security "t1" session).0 ≡ ok tt)
    × (detail : String) × (refresh_token_endpoint security "t1" 52 2 after_logout
        ≡ (raise (http_exception 401 detail), after_logout))
unfolding hash_token
logout_revokes_example =
    logout_revokes security "t1" stored 52 2 session after_logout refl refl refl refl

abbrev pub carol : UserCreate
carol = record { email = "carol@example.com"; password = "12345678"; full_name = "Carol" }

abbrev pub carol_user : User
carol_user = new_user 3 "carol@example.com" "12345678" "Carol" 300

abbrev after_registration : Session
after_registration = (register security carol 3 13 "RO13" session).1

first_registration :
    register security carol 3 13 "RO13" session ≡ (ok carol_user, after_registration)
unfolding register or_http commit flush apply user_error account_error fits_numeric
first_registration = refl

registration_opens_example :
    (carol_user.email ≡ carol.email)
    × Registered carol.email carol_user
        (new_account 13 3 "RO13" 300)
        session.store
        after_registration.store
    × (funds after_registration.store ≡ funds session.store)
    × (IsSound session.store → IsSound after_registration.store)
registration_opens_example =
    registration_opens security carol 3 13 "RO13" session after_registration carol_user refl
      first_registration
