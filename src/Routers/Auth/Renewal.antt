-- ===== src/Routers/Auth/Renewal.antt =====
-- A refresh revokes the token that it was given, in the same commit as it stores the new one.
use Prim.Native.String.{String}
use text.Mathlib.TextEquality.{eq_iff}
use banking_payments_api.Prelude.{
  sym, ap, ◌∙◌, ℕ, ◌≡◌, refl, false, ◌||◌, Option, none, some, List, [], ◌∷◌, ◌++◌, arith, inl, inr,
  Option-cases, Bool-cases, ◌==◌, ltb,
}
use banking_payments_api.Prelude.Lists.{select}
use banking_payments_api.Store.Tables.{find, update}
use banking_payments_api.Store.Models.{RefreshToken, refresh_token_id, User, Database}
use banking_payments_api.Store.Errors.{
  Outcome, Outcome-cases, ok, raise, integrity_error, data_error, stale_data, no_result_found,
  multiple_results, transaction_not_found, transaction_already_processed, amount_mismatch,
  type_error, validation_error, lookup_error, http_exception,
}
use banking_payments_api.Store.Schema.{
  select_none, same_hash, as_revoked, apply, flush, any_row, refresh_token_error, set_revoked,
  insert_refresh_token,
}
use banking_payments_api.Store.Session.{Session, ◌>>=◌, commit, rollback, scalar_one_or_none}
use banking_payments_api.Security.{
  Security, Decoded, payload, expired_signature, invalid_token, hash_token,
}
use banking_payments_api.Routers.Auth.{
  TokenResponse, or_http, is_refresh, issue, rotate, renew, user_of, refresh_decoded,
  refresh_token_endpoint,
}
use banking_payments_api.Routers.Auth.Rotation.{select-update, refused}

-- What a rotation of the token with this id leaves.
Rotated : ℕ → List RefreshToken → List RefreshToken → Type 0
Rotated k before after =
    (t : RefreshToken) × (after ≡ t ∷ update k as_revoked before)
    × (any_row (same_hash t.token_hash) (update k as_revoked before) ≡ false)

pub or_http_ok :
    {A : Type 0} (a a' : A) (code : ℕ) (detail : String) (r : Outcome (Unit {0}) × Session)
    (s' : Session)
    → or_http a code detail r ≡ (ok a', s')
    → r ≡ (ok tt, s')
unfolding or_http rollback
or_http_ok a a' code detail (ok _, s) s' e = cc
or_http_ok a a' code detail (raise integrity_error, s) s' e = cc
or_http_ok a a' code detail (raise data_error, s) s' e = cc
or_http_ok a a' code detail (raise stale_data, s) s' e = cc
or_http_ok a a' code detail (raise no_result_found, s) s' e = cc
or_http_ok a a' code detail (raise multiple_results, s) s' e = cc
or_http_ok a a' code detail (raise (transaction_not_found _), s) s' e = cc
or_http_ok a a' code detail (raise (transaction_already_processed _), s) s' e = cc
or_http_ok a a' code detail (raise (amount_mismatch _ _), s) s' e = cc
or_http_ok a a' code detail (raise type_error, s) s' e = cc
or_http_ok a a' code detail (raise validation_error, s) s' e = cc
or_http_ok a a' code detail (raise lookup_error, s) s' e = cc
or_http_ok a a' code detail (raise (http_exception _ _), s) s' e = cc

pub or_http_same :
    {A : Type 0} (a a' : A) (code : ℕ) (detail : String) (r : Outcome (Unit {0}) × Session)
    (s' : Session)
    → or_http a code detail r ≡ (ok a', s')
    → a ≡ a'
unfolding or_http
or_http_same {A} a a' code detail r s' e =
    let p = or_http_ok a a' code detail r s' e in
    let q : ◌≡◌ {A = Outcome A × Session} (ok a, s') (ok a', s') =
      sym (ap (or_http a code detail) p) ∙ e in
    cc

flush_rotation :
    (now k : ℕ) (t : RefreshToken) (db db' : Database)
    → flush now (set_revoked k ∷ insert_refresh_token t ∷ []) db ≡ ok db'
    → Rotated k db.refresh_tokens db'.refresh_tokens
unfolding flush apply refresh_token_error Rotated
flush_rotation now k t db db' e = (t, ground arith, ground arith)

pub commit_ok :
    (s s' : Session) → commit s ≡ (ok tt, s') → flush s.now s.unflushed s.store ≡ ok s'.store
unfolding commit
commit_ok s s' e = elim (Outcome-cases (flush s.now s.unflushed s.store)) [
  | inl (db, flushed) ↦ ground arith
  | inr (x, failed) ↦ ground arith
]

module _ (sec : Security) where
  issued :
      (user : User) (a b k : ℕ) (detail : String) (s s' : Session) (r : TokenResponse)
      → s.unflushed ≡ set_revoked k ∷ []
      → issue sec user a b detail s ≡ (ok r, s')
      → Rotated k s.store.refresh_tokens s'.store.refresh_tokens
  unfolding issue
  issued user a b k detail s s' r staged e =
      let flushed = commit_ok _ s' (or_http_ok _ r 500 detail _ s' e) in
      flush_rotation s.now k _ s.store s'.store (rw staged at flushed)

  renewed :
      (o : Option User) (a b k : ℕ) (s s' : Session) (r : TokenResponse)
      → s.unflushed ≡ set_revoked k ∷ []
      → renew sec a b o s ≡ (ok r, s')
      → Rotated k s.store.refresh_tokens s'.store.refresh_tokens
  unfolding renew
  renewed none a b k s s' r staged e = cc
  renewed (some user) a b k s s' r staged e = issued user a b k _ s s' r staged e

  module _ (x : RefreshToken) (a b : ℕ) (s s' : Session) (r : TokenResponse)
      (clean : s.unflushed ≡ []) where
    staged : s.unflushed ++ set_revoked x.id ∷ [] ≡ set_revoked x.id ∷ []
    staged = rw clean refl

    users_renewed :
        (rows : List User)
        → (scalar_one_or_none rows >>= renew sec a b)
            (record s { unflushed = s.unflushed ++ set_revoked x.id ∷ [] })
          ≡ (ok r, s')
        → Rotated x.id s.store.refresh_tokens s'.store.refresh_tokens
    users_renewed [] e = renewed none a b x.id _ s' r staged e
    users_renewed (u ∷ []) e = renewed (some u) a b x.id _ s' r staged e
    users_renewed (u ∷ v ∷ us) e = cc

    stored_renewed :
        (sub : Option ℕ)
        → rotate sec sub a b (some x) s ≡ (ok r, s')
        → Rotated x.id s.store.refresh_tokens s'.store.refresh_tokens
    unfolding rotate user_of
    stored_renewed sub e = elim (Bool-cases (x.revoked || ltb x.expires_at s.now)) [
      | inl gone ↦ ground arith
      | inr valid ↦ elim (Option-cases sub) [
        | inl missing ↦ ground arith
        | inr (user_id, known) ↦
            users_renewed (select (λ (u : User). u.id == user_id) s.store.users)
              (rw (valid, known) at e)
      ]
    ]

    decoded_renewed :
        (token : String) (d : Decoded)
        → select (same_hash (hash_token sec token)) s.store.refresh_tokens ≡ x ∷ []
        → refresh_decoded sec token a b d s ≡ (ok r, s')
        → Rotated x.id s.store.refresh_tokens s'.store.refresh_tokens
    unfolding refresh_decoded
    decoded_renewed token expired_signature selected e = cc
    decoded_renewed token invalid_token selected e = cc
    decoded_renewed token (payload p) selected e = elim (Bool-cases (is_refresh p.type)) [
      | inr other ↦ ground arith
      | inl refresh ↦ stored_renewed p.sub (rw (refresh, selected) at e)
    ]

-- the new row does not have the hash of the old one
others_hash :
    (hash : String) (t x : RefreshToken) (rows : List RefreshToken)
    → select (same_hash hash) rows ≡ x ∷ []
    → any_row (same_hash t.token_hash) rows ≡ false
    → same_hash hash t ≡ false
others_hash hash t x rows selected free = elim (Bool-cases (same_hash hash t)) [
  | inr other ↦ other
  | inl same ↦
      let p : t.token_hash ≡ hash = (eq_iff t.token_hash hash).0 same in
      let empty = select_none (same_hash hash) rows (rw p at free) in ground arith
]

-- If a refresh with a token that one row has, which is found
-- under its id, succeeds in a session with nothing to write, then that token is refused with 401 and
-- nothing is written, in every later session in which the query for the hash of the token gives what
-- it gave when the refresh was done: other tokens may have come and gone.
pub refreshed_once :
    (sec : Security) (token : String) (x : RefreshToken) (a b a' b' : ℕ) (s s' later : Session)
    (r : TokenResponse)
    → select (same_hash (hash_token sec token)) s.store.refresh_tokens ≡ x ∷ []
    → find x.id s.store.refresh_tokens ≡ some x
    → s.unflushed ≡ []
    → refresh_token_endpoint sec token a b s ≡ (ok r, s')
    → select (same_hash (hash_token sec token)) later.store.refresh_tokens
      ≡ select (same_hash (hash_token sec token)) s'.store.refresh_tokens
    → (detail : String) × (refresh_token_endpoint sec token a' b' later
        ≡ (raise (http_exception 401 detail), later))
unfolding refresh_token_endpoint Rotated
refreshed_once sec token x a b a' b' s s' later r selected found clean e kept =
    let hash = hash_token sec token in
    let (t, tokens, free) =
      decoded_renewed sec x a b s s' r clean token (sec.decode_token token s.now) selected e in
    let only : select (same_hash hash) (update x.id as_revoked s.store.refresh_tokens)
        ≡ as_revoked x ∷ [] =
      select-update (same_hash hash) as_revoked x s.store.refresh_tokens (λ y. refl) selected
        found in
    let other = others_hash hash t (as_revoked x) _ only free in
    let again : select (same_hash hash) later.store.refresh_tokens ≡ as_revoked x ∷ [] =
      kept ∙ (ap (select (same_hash hash)) tokens ∙ rw other only) in
    refused sec token (as_revoked x) a' b' later again refl
