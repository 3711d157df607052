-- ===== src/Interleaving/Alone/Access.antt =====
-- The programs of the authentication routes, when nothing interrupts them.
use Prim.Native.String.{String}
use banking_payments_api.Prelude.{
  ℕ, ◌≡◌, refl, ◌||◌, ltb, Option, none, some, arith, inl, inr, Bool-cases,
}
use banking_payments_api.Store.Models.{RefreshToken}
use banking_payments_api.Store.Session.{Session, ◌>>=◌}
use banking_payments_api.Security.{Security, Decoded, payload, expired_signature, invalid_token}
use banking_payments_api.Routers.Auth.{
  UserCreate, register, login as login_route, refresh_token_endpoint, rotate, renew,
  logout as logout_route, is_refresh, refresh_decoded as renewal,
}
use banking_payments_api.Interleaving.{alone}
use banking_payments_api.Interleaving.Access.{
  user_with_email, registration, login, stored_token, owner, refresh, refresh_decoded, logout,
}
use banking_payments_api.Interleaving.Alone.{>>=-cong}

module _ (sec : Security) where
  pub alone-registration :
      (user_in : UserCreate) (user_id account_id : ℕ) (number : String) (s : Session)
      → alone (registration sec user_in user_id account_id number) s
        ≡ register sec user_in user_id account_id number s
  unfolding alone registration user_with_email register
  alone-registration user_in user_id account_id number s = refl

  pub alone-login :
      (username password : String) (token_id jti : ℕ) (s : Session)
      → alone (login sec username password token_id jti) s
        ≡ login_route sec username password token_id jti s
  unfolding alone login user_with_email login_route
  alone-login username password token_id jti s = refl

  pub alone-logout :
      (token : String) (s : Session) → alone (logout sec token) s ≡ logout_route sec token s
  unfolding alone logout stored_token logout_route
  alone-logout token s = refl

  owner_alone :
      (sub : Option ℕ) (token_id jti : ℕ) (stored : Option RefreshToken) (s : Session)
      → (owner sec sub stored >>= renew sec token_id jti) s ≡ rotate sec sub token_id jti stored s
  unfolding owner rotate
  owner_alone sub token_id jti none s = refl
  owner_alone sub token_id jti (some t) s =
      elim (Bool-cases (t.revoked || ltb t.expires_at s.now)) [
        | inl unusable ↦ ground arith
        | inr usable ↦ ground arith
      ]

  alone-refresh_decoded :
      (token : String) (token_id jti : ℕ) (d : Decoded) (s : Session)
      → alone (refresh_decoded sec token token_id jti d) s ≡ renewal sec token token_id jti d s
  unfolding alone refresh_decoded renewal stored_token
  alone-refresh_decoded token token_id jti expired_signature s = refl
  alone-refresh_decoded token token_id jti invalid_token s = refl
  alone-refresh_decoded token token_id jti (payload p) s = elim (Bool-cases (is_refresh p.type)) [
    | inl good ↦
        rw good (
          >>=-cong (stored_token sec token) _ _ s (λ stored. owner_alone p.sub token_id jti stored))
    | inr other ↦ rw other refl
  ]

  pub alone-refresh :
      (token : String) (token_id jti : ℕ) (s : Session)
      → alone (refresh sec token token_id jti) s ≡ refresh_token_endpoint sec token token_id jti s
  unfolding alone refresh refresh_token_endpoint
  alone-refresh token token_id jti s =
      alone-refresh_decoded token token_id jti (sec.decode_token token s.now) s
