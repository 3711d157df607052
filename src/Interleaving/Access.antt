-- ===== src/Interleaving/Access.antt =====
-- The handlers of app/routers/auth.py, cut into segments where other requests may commit.
use Prim.Native.String.{String}
use banking_payments_api.Prelude.{ℕ, not, ◌||◌, Option, none, some, ltb, if◌then◌else◌}
use banking_payments_api.Prelude.Lists.{select}
use banking_payments_api.Store.Models.{User, RefreshToken}
use banking_payments_api.Store.Errors.{http_exception}
use banking_payments_api.Store.Schema.{set_revoked, same_hash, same_email}
use banking_payments_api.Store.Session.{
  Action, throw, gets, scalar_one_or_none, ◌>>=◌, ◌>>◌, register as stage,
}
use banking_payments_api.Security.{
  Security, Decoded, payload, expired_signature, invalid_token, hash_token,
}
use banking_payments_api.Routers.Auth.{
  UserCreate, TokenResponse, create_user, authenticate, renew, user_of, revoke, is_refresh,
}
use banking_payments_api.Interleaving.{Program, last, next}

-- `select(User).where(User.email == …)`
unfoldable pub user_with_email : String → Action (Option User)
user_with_email email = do
  rows ← gets (λ s. select (same_email email) s.store.users)
  scalar_one_or_none rows

module _ (sec : Security) where
  -- `register`
  unfoldable pub registration : UserCreate → ℕ → ℕ → String → Program User
  registration user_in user_id account_id account_number =
      next (user_with_email user_in.email)
        (λ existing. last (create_user sec user_in user_id account_id account_number existing))

  unfoldable pub login : String → String → ℕ → ℕ → Program TokenResponse
  login username password token_id jti =
      next (user_with_email username) (λ user. last (authenticate sec password token_id jti user))

  -- `select(RefreshToken).where(RefreshToken.token_hash == …)`
  unfoldable pub stored_token : String → Action (Option RefreshToken)
  stored_token refresh_token = do
    rows ← gets (λ s. select (same_hash (hash_token sec refresh_token)) s.store.refresh_tokens)
    scalar_one_or_none rows

  -- `refresh_token_endpoint` from the stored token to the query for its user
  unfoldable pub owner : Option ℕ → Option RefreshToken → Action (Option User)
  owner sub none = throw (http_exception 401 "Refresh token invalid sau expirat")
  owner sub (some stored) = do
    now ← gets (λ s. s.now)
    if stored.revoked || ltb stored.expires_at now
        then throw (http_exception 401 "Refresh token invalid sau expirat")
        else (do stage (set_revoked stored.id); user_of sec sub)

  unfoldable pub refresh_decoded : String → ℕ → ℕ → Decoded → Program TokenResponse
  refresh_decoded refresh_token token_id jti expired_signature =
      last (throw (http_exception 401 "Refresh token expirat"))
  refresh_decoded refresh_token token_id jti invalid_token =
      last (throw (http_exception 401 "Token invalid"))
  refresh_decoded refresh_token token_id jti (payload p) =
      if not (is_refresh p.type)
      then last (throw (http_exception 401 "Token invalid"))
      else next (stored_token refresh_token)
          (λ stored. next (owner p.sub stored) (λ user. last (renew sec token_id jti user)))

  -- the token is decoded in the segment before, which asks the database nothing
  unfoldable pub refresh : String → ℕ → ℕ → Program TokenResponse
  refresh refresh_token token_id jti =
      next (gets (λ s. s.now))
        (λ now. refresh_decoded refresh_token token_id jti (sec.decode_token refresh_token now))

  unfoldable pub logout : String → Program (Unit {0})
  logout refresh_token = next (stored_token refresh_token) (λ stored. last (revoke sec stored))
