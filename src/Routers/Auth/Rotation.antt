-- ===== src/Routers/Auth/Rotation.antt =====
-- A refresh token is worth one refresh, and none after a logout.
use Prim.Native.String.{String}
use banking_payments_api.Prelude.{
  ℕ, ◌≡◌, refl, ap, ◌∙◌, Bool, true, some, List, [], ◌∷◌, arith, inl, inr, Bool-cases, ◌==◌,
}
use banking_payments_api.Prelude.Lists.{select}
use banking_payments_api.Store.Tables.{find, update}
use banking_payments_api.Store.Models.{RefreshToken, refresh_token_id}
use banking_payments_api.Store.Errors.{Outcome, ok, raise, http_exception}
use banking_payments_api.Store.Schema.{same_hash, as_revoked, apply, flush}
use banking_payments_api.Store.Session.{Session, commit}
use banking_payments_api.Security.{
  Security, Decoded, payload, expired_signature, invalid_token, hash_token,
}
use banking_payments_api.Routers.Auth.{
  or_http, is_refresh, rotate, refresh_decoded, refresh_token_endpoint, revoke, logout,
}

select_holds :
    (p : RefreshToken → Bool) (x : RefreshToken) (xs : List RefreshToken)
    → select p xs ≡ x ∷ []
    → p x ≡ true
select_holds p x [] h = cc
select_holds p x (y ∷ ys) h = elim (Bool-cases (p y)) [
  | inl hit ↦ let same : y ≡ x = ground arith in rw same at hit
  | inr miss ↦ select_holds p x ys (ground arith)
]

-- The only row that a query selects is still the only one after its update.
pub select-update :
    (p : RefreshToken → Bool) (g : RefreshToken → RefreshToken) (x : RefreshToken)
    (xs : List RefreshToken)
    → ((y : RefreshToken) → p (g y) ≡ p y)
    → select p xs ≡ x ∷ []
    → find x.id xs ≡ some x
    → select p (update x.id g xs) ≡ g x ∷ []
select-update p g x [] keeps h found = cc
select-update p g x (y ∷ ys) keeps h found = elim (Bool-cases (y.id == x.id)) [
  | inl same ↦
      let q : y ≡ x = ground arith in
      let holds = select_holds p x (y ∷ ys) h in ground (arith, keeps x)
  | inr other ↦ elim (Bool-cases (p y)) [
    | inl hit ↦ let q : y ≡ x = ground arith in ground arith
    | inr miss ↦ ground (arith, select-update p g x ys keeps)
  ]
]

module _ (sec : Security) (token : String) where
  decoded_refused :
      (x : RefreshToken) (a b : ℕ) (s : Session) (d : Decoded)
      → select (same_hash (hash_token sec token)) s.store.refresh_tokens ≡ x ∷ []
      → x.revoked ≡ true
      → (detail : String) × (refresh_decoded sec token a b d s
          ≡ (raise (http_exception 401 detail), s))
  unfolding refresh_decoded rotate
  decoded_refused x a b s expired_signature selected gone = ("Refresh token expirat", refl)
  decoded_refused x a b s invalid_token selected gone = ("Token invalid", refl)
  decoded_refused x a b s (payload p) selected gone = elim (Bool-cases (is_refresh p.type)) [
    | inl refresh ↦ ("Refresh token invalid sau expirat", ground arith)
    | inr other ↦ ("Token invalid", ground arith)
  ]

  -- a revoked token is refused, whatever it decodes to
  pub refused :
      (x : RefreshToken) (a b : ℕ) (s : Session)
      → select (same_hash (hash_token sec token)) s.store.refresh_tokens ≡ x ∷ []
      → x.revoked ≡ true
      → (detail : String) × (refresh_token_endpoint sec token a b s
          ≡ (raise (http_exception 401 detail), s))
  unfolding refresh_token_endpoint
  refused x a b s selected gone =
      decoded_refused x a b s (sec.decode_token token s.now) selected gone

  logged_out :
      (x : RefreshToken) (s : Session)
      → select (same_hash (hash_token sec token)) s.store.refresh_tokens ≡ x ∷ []
      → find x.id s.store.refresh_tokens ≡ some x
      → s.unflushed ≡ []
      → logout sec token s ≡ (
        ok tt,
        record s {
          store = record s.store { refresh_tokens = update x.id as_revoked s.store.refresh_tokens };
          unflushed = [];
        },
      )
  unfolding logout revoke or_http commit flush apply
  logged_out x s selected found clean = ground arith

  -- A logout with a token that one row has, which is found under its id, succeeds in a session with
  -- nothing to write. That token is refused with 401 and nothing is written in every later session in
  -- which the query for the hash of the token gives what it gave when the logout was done: other tokens
  -- may have come and gone.
  pub logout_revokes :
      (x : RefreshToken) (a b : ℕ) (s later : Session)
      → select (same_hash (hash_token sec token)) s.store.refresh_tokens ≡ x ∷ []
      → find x.id s.store.refresh_tokens ≡ some x
      → s.unflushed ≡ []
      → select (same_hash (hash_token sec token)) later.store.refresh_tokens
        ≡ select (same_hash (hash_token sec token)) (logout sec token s).1.store.refresh_tokens
      → ((logout sec token s).0 ≡ ok tt)
        × (detail : String) × (refresh_token_endpoint sec token a b later
            ≡ (raise (http_exception 401 detail), later))
  logout_revokes x a b s later selected found clean kept =
      let e = logged_out x s selected found clean in
      let mine = same_hash (hash_token sec token) in
      let revoked =
        kept
        ∙ (ap (λ (r : Outcome (Unit {0}) × Session). select mine r.1.store.refresh_tokens) e
            ∙ select-update mine as_revoked x s.store.refresh_tokens (λ y. refl) selected found) in
      let again = refused (as_revoked x) a b later revoked refl in
      (ap (λ (r : Outcome (Unit {0}) × Session). r.0) e, again.0, again.1)
