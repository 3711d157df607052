-- ===== src/Routers/Auth.antt =====
-- app/routers/auth.py, app/schemas/auth.py and app/schemas/user.py. The rate limiter stands before the
-- routes. The ids of new rows and the `jti` of a new token are arguments.
pub mod Validation
pub mod Rotation
pub mod Renewal
pub mod Registration
pub mod Login
use Prim.Native.String.{String}
use text.Mathlib.Text.{◌==◌ as str_eq}
use banking_payments_api.Prelude.{
  ℕ, Bool, true, false, not, ◌&&◌, ◌||◌, Option, none, some, ltb, leb, ◌==◌, if◌then◌else◌,
}
use banking_payments_api.Prelude.Int.{pos}
use banking_payments_api.Prelude.Lists.{select}
use banking_payments_api.Store.Models.{User, Account, RefreshToken}
use banking_payments_api.Store.Errors.{
  Outcome, ok, raise, Exc, integrity_error, lookup_error, http_exception,
}
use banking_payments_api.Store.Schema.{
  insert_user, insert_account, insert_refresh_token, set_revoked, same_hash, same_email,
}
use banking_payments_api.Store.Session.{
  Session, Action, pure, throw, gets, scalar_one_or_none, ◌>>=◌, ◌>>◌, register as stage, commit,
  rollback,
}
use banking_payments_api.Security.{
  Security, Payload, Decoded, payload, expired_signature, invalid_token, hash_token,
  create_access_token, create_refresh_token,
}

pub record UserCreate : Type 0 where
  pub email : String
  pub password : String
  pub full_name : String

pub record TokenResponse : Type 0 where
  pub access_token : String
  pub refresh_token : String

abbrev unauthorized : {A : Type 0} → String → Action A
unauthorized detail = throw (http_exception 401 detail)

-- `except IntegrityError: rollback; raise HTTPException(code, detail)`, after a commit
unfoldable pub or_http :
    {A : Type 0} → A → ℕ → String → Outcome (Unit {0}) × Session → Outcome A × Session
or_http a code detail (ok _, s) = (ok a, s)
or_http a code detail (raise integrity_error, s) =
    (rollback >> throw (http_exception code detail)) s
or_http a code detail (raise e, s) = (raise e, s)

abbrev pub new_user : ℕ → String → String → String → ℕ → User
new_user id email hashed_password full_name now = record {
  id = id;
  email = email;
  hashed_password = hashed_password;
  full_name = full_name;
  is_admin = false;
  created_at = now;
}

abbrev pub new_account : ℕ → ℕ → String → ℕ → Account
new_account id user_id account_number now = record {
  id = id;
  user_id = user_id;
  account_number = account_number;
  balance = pos 0;
  currency = "RON";
  created_at = now;
  updated_at = now;
}

abbrev pub new_token : ℕ → ℕ → String → ℕ → ℕ → RefreshToken
new_token id user_id token_hash now expires_at = record {
  id = id;
  user_id = user_id;
  token_hash = token_hash;
  revoked = false;
  created_at = now;
  expires_at = expires_at;
}

-- `payload.get("type") == "refresh"`
unfoldable pub is_refresh : Option String → Bool
is_refresh none = false
is_refresh (some type) = str_eq type "refresh"

module _ (sec : Security) where
  -- behind the look-up of the email; the flush in between is part of the same database transaction
  unfoldable pub create_user : UserCreate → ℕ → ℕ → String → Option User → Action User
  create_user user_in user_id account_id account_number (some _) =
      throw (http_exception 409 "Există deja un cont cu acest email")
  create_user user_in user_id account_id account_number none = do
    now ← gets (λ s. s.now)
    let user =
        new_user user_id user_in.email (sec.hash_password user_in.password) user_in.full_name now
    stage (insert_user user)
    stage (insert_account (new_account account_id user_id account_number now))
    λ s. or_http user 409 "A apărut o problemă la înregistrare. Te rog încearcă din nou." (commit s)

  -- `account_number` is what `_generate_account_number` draws
  unfoldable pub register : UserCreate → ℕ → ℕ → String → Action User
  unfolding create_user
  register user_in user_id account_id account_number = do
    rows ← gets (λ s. select (same_email user_in.email) s.store.users)
    existing ← scalar_one_or_none rows
    create_user user_in user_id account_id account_number existing

  -- a new pair of tokens for a user
  unfoldable pub issue : User → ℕ → ℕ → String → Action TokenResponse
  issue user token_id jti detail = do
    now ← gets (λ s. s.now)
    let access_token = create_access_token sec user.id user.is_admin now
    let (raw_refresh, token_hash, expires_at) = create_refresh_token sec user.id jti now
    stage (insert_refresh_token (new_token token_id user.id token_hash now expires_at))
    λ s.
        or_http (record { access_token = access_token; refresh_token = raw_refresh }) 500 detail
          (commit s)

  unfoldable pub authenticate : String → ℕ → ℕ → Option User → Action TokenResponse
  authenticate password token_id jti none = unauthorized "Email sau parolă incorecte"
  authenticate password token_id jti (some user) =
      if not (sec.verify_password password user.hashed_password)
      then unauthorized "Email sau parolă incorecte"
      else issue user token_id jti
          "A apărut o problemă la salvarea sesiunii. Te rog încearcă din nou."

  unfoldable pub login : String → String → ℕ → ℕ → Action TokenResponse
  unfolding authenticate
  login username password token_id jti = do
    rows ← gets (λ s. select (same_email username) s.store.users)
    user ← scalar_one_or_none rows
    authenticate password token_id jti user

  -- the user of a token that is valid and revoked from now on
  unfoldable pub renew : ℕ → ℕ → Option User → Action TokenResponse
  renew token_id jti none = unauthorized "User invalid"
  renew token_id jti (some user) =
      issue user token_id jti
        "A apărut o problemă la actualizarea token-ului. Te rog încearcă din nou."

  unfoldable pub user_of : Option ℕ → Action (Option User)
  user_of none = throw lookup_error
  user_of (some user_id) = do
    rows ← gets (λ s. select (λ (u : User). u.id == user_id) s.store.users)
    scalar_one_or_none rows

  unfoldable pub rotate : Option ℕ → ℕ → ℕ → Option RefreshToken → Action TokenResponse
  unfolding renew user_of
  rotate sub token_id jti none = unauthorized "Refresh token invalid sau expirat"
  rotate sub token_id jti (some stored) = do
    now ← gets (λ s. s.now)
    if stored.revoked || ltb stored.expires_at now
        then unauthorized "Refresh token invalid sau expirat"
        else (do stage (set_revoked stored.id); user ← user_of sub; renew token_id jti user)

  unfoldable pub refresh_decoded : String → ℕ → ℕ → Decoded → Action TokenResponse
  unfolding rotate is_refresh
  refresh_decoded refresh_token token_id jti expired_signature =
      unauthorized "Refresh token expirat"
  refresh_decoded refresh_token token_id jti invalid_token = unauthorized "Token invalid"
  refresh_decoded refresh_token token_id jti (payload p) =
      if not (is_refresh p.type) then unauthorized "Token invalid" else (do
        rows ← gets (λ s. select (same_hash (hash_token sec refresh_token)) s.store.refresh_tokens)
        stored ← scalar_one_or_none rows
        rotate p.sub token_id jti stored)

  unfoldable pub refresh_token_endpoint : String → ℕ → ℕ → Action TokenResponse
  unfolding refresh_decoded
  refresh_token_endpoint refresh_token token_id jti = do
    now ← gets (λ s. s.now)
    refresh_decoded refresh_token token_id jti (sec.decode_token refresh_token now)

  unfoldable pub revoke : Option RefreshToken → Action (Unit {0})
  revoke none = pure tt
  revoke (some stored) = do
    stage (set_revoked stored.id)
    λ s. or_http tt 500 "A apărut o problemă la deconectare. Te rog încearcă din nou." (commit s)

  unfoldable pub logout : String → Action (Unit {0})
  unfolding revoke
  logout refresh_token = do
    rows ← gets (λ s. select (same_hash (hash_token sec refresh_token)) s.store.refresh_tokens)
    stored ← scalar_one_or_none rows
    revoke stored
