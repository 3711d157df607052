-- ===== src/Interleaving/Users.antt =====
-- The segments of the authentication routes keep what is watched.
use Prim.Native.String.{String}
use banking_payments_api.Prelude.{
  ◌≡◌, refl, ℕ, ◌||◌, ltb, Option, none, some, inl, inr, Bool-cases, if◌then◌else◌,
}
use banking_payments_api.Prelude.Int.{pos, int_laws}
use banking_payments_api.Store.Models.{User, Account, RefreshToken}
use banking_payments_api.Store.Errors.{
  integrity_error, data_error, stale_data, no_result_found, multiple_results, transaction_not_found,
  transaction_already_processed, amount_mismatch, type_error, validation_error, lookup_error,
  http_exception, Outcome, ok, raise,
}
use banking_payments_api.Store.Schema.{
  insert_user, insert_account, insert_refresh_token, set_revoked,
}
use banking_payments_api.Store.Session.{Session, throw, commit, rollback, register, ◌>>◌}
use banking_payments_api.Security.{Security}
use banking_payments_api.Routers.Auth.{
  UserCreate, or_http, create_user, authenticate, issue, renew, user_of, revoke, new_user,
  new_account,
}
use banking_payments_api.Interleaving.Access.{user_with_email, stored_token, owner}
use banking_payments_api.Interleaving.Rule.{After}
use banking_payments_api.Interleaving.Triples.{
  Fit, Sound, Anything, any-Sound, then-Sound, pure-Sound, throw-Sound, gets-Sound,
  scalar_one_or_none-Sound, register-Sound, commit-Sound,
}
use banking_payments_api.Interleaving.Changes.{Watch, money, entries, Watched, IsSafeAccount}

-- a new account has nothing on it
opened-Safe : (w : Watch) (a : Account) → a.balance ≡ pos 0 → IsSafeAccount w a
opened-Safe money a empty = rw empty (omega int_laws)
opened-Safe (entries base) a empty = tt

module _ {w : Watch} where
  or_http-Sound :
      {A : Type 0} (a : A) (code : ℕ) (detail : String)
      → Sound w Anything (λ s. or_http a code detail (commit s))
  unfolding or_http rollback
  or_http-Sound {A} a code detail = record {
    keeps = λ s h fit. caught (commit s) (commit-Sound.keeps s h fit);
  }
    where
      caught :
          (r : Outcome (Unit {0}) × Session)
          → After (Watched w) (λ a' s'. Fit w s' × Anything a') r
          → After (Watched w) (λ a' s'. Fit w s' × Anything a') (or_http a code detail r)
      caught (ok _, s') after = after
      caught (raise integrity_error, s') after = after
      caught (raise data_error, s') after = after
      caught (raise stale_data, s') after = after
      caught (raise no_result_found, s') after = after
      caught (raise multiple_results, s') after = after
      caught (raise (transaction_not_found k), s') after = after
      caught (raise (transaction_already_processed k), s') after = after
      caught (raise (amount_mismatch x y), s') after = after
      caught (raise type_error, s') after = after
      caught (raise validation_error, s') after = after
      caught (raise lookup_error, s') after = after
      caught (raise (http_exception code' detail'), s') after = after

  pub user_with_email-Sound : (email : String) → Sound w Anything (user_with_email email)
  unfolding user_with_email
  user_with_email-Sound email = any-Sound (gets-Sound _) scalar_one_or_none-Sound

  module _ (sec : Security) where
    pub create_user-Sound :
        (user_in : UserCreate) (user_id account_id : ℕ) (number : String) (o : Option User)
        → Sound w Anything (create_user sec user_in user_id account_id number o)
    unfolding create_user
    create_user-Sound user_in user_id account_id number (some u) = throw-Sound _
    create_user-Sound user_in user_id account_id number none =
        any-Sound (gets-Sound (λ s. s.now)) (λ now.
          let user =
            new_user user_id user_in.email (sec.hash_password user_in.password) user_in.full_name
              now in
          then-Sound (register-Sound (insert_user user) tt) (
            then-Sound
              (register-Sound (insert_account (new_account account_id user_id number now))
                (opened-Safe w (new_account account_id user_id number now) refl))
              (or_http-Sound user 409 _)))

    issue-Sound :
        (u : User) (token_id jti : ℕ) (detail : String)
        → Sound w Anything (issue sec u token_id jti detail)
    unfolding issue
    issue-Sound u token_id jti detail = any-Sound (gets-Sound (λ s. s.now)) (λ now.
        then-Sound (register-Sound (insert_refresh_token _) tt) (or_http-Sound _ 500 detail))

    pub authenticate-Sound :
        (password : String) (token_id jti : ℕ) (o : Option User)
        → Sound w Anything (authenticate sec password token_id jti o)
    unfolding authenticate
    authenticate-Sound password token_id jti none = throw-Sound _
    authenticate-Sound password token_id jti (some u) =
        elim (Bool-cases (sec.verify_password password u.hashed_password)) [
          | inl good ↦ rw good (issue-Sound u token_id jti _)
          | inr bad ↦ rw bad (throw-Sound _)
        ]

    pub stored_token-Sound : (token : String) → Sound w Anything (stored_token sec token)
    unfolding stored_token
    stored_token-Sound token = any-Sound (gets-Sound _) scalar_one_or_none-Sound

    user_of-Sound : (sub : Option ℕ) → Sound w Anything (user_of sec sub)
    unfolding user_of
    user_of-Sound none = throw-Sound _
    user_of-Sound (some k) = any-Sound (gets-Sound _) scalar_one_or_none-Sound

    usable-Sound :
        (sub : Option ℕ) (t : RefreshToken) (now : ℕ)
        → Sound w Anything (
            if t.revoked || ltb t.expires_at now
            then throw (http_exception 401 "Refresh token invalid sau expirat")
            else (do register (set_revoked t.id); user_of sec sub))
    usable-Sound sub t now = elim (Bool-cases (t.revoked || ltb t.expires_at now)) [
      | inl unusable ↦ rw unusable (throw-Sound _)
      | inr usable ↦
          rw usable (then-Sound (register-Sound (set_revoked t.id) tt) (user_of-Sound sub))
    ]

    pub owner-Sound :
        (sub : Option ℕ) (o : Option RefreshToken) → Sound w Anything (owner sec sub o)
    unfolding owner
    owner-Sound sub none = throw-Sound _
    owner-Sound sub (some t) = any-Sound (gets-Sound (λ s. s.now)) (usable-Sound sub t)

    pub renew-Sound :
        (token_id jti : ℕ) (o : Option User) → Sound w Anything (renew sec token_id jti o)
    unfolding renew
    renew-Sound token_id jti none = throw-Sound _
    renew-Sound token_id jti (some u) = issue-Sound u token_id jti _

    pub revoke-Sound : (o : Option RefreshToken) → Sound w Anything (revoke sec o)
    unfolding revoke
    revoke-Sound none = pure-Sound tt tt
    revoke-Sound (some t) =
        then-Sound (register-Sound (set_revoked t.id) tt) (or_http-Sound tt 500 _)
