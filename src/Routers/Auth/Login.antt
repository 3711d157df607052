-- ===== src/Routers/Auth/Login.antt =====
-- From a registration to a login, and from a login to the requests that its token admits.
use Prim.Native.String.{String}
use text.Mathlib.TextPositions.{eq_refl}
use banking_payments_api.Prelude.{
  ℕ, ◌+◌, ◌*◌, ◌≤◌, ◌≡◌, Bool, refl, sym, ap, ◌∙◌, none, Option, true, Bool-cases, some, [], ◌∷◌,
  arith, inl, inr, ltb, ◌==◌, if◌then◌else◌,
}
use banking_payments_api.Prelude.Lists.{select}
use banking_payments_api.Store.Models.{User, RefreshToken}
use banking_payments_api.Store.Errors.{Outcome, ok, raise, http_exception}
use banking_payments_api.Store.Schema.{same_email, select_none, refresh_token_error, apply, flush}
use banking_payments_api.Store.Session.{Session, commit}
use banking_payments_api.Security.{
  Security, IsLawful, create_access_token, create_refresh_token, payload, expired_signature,
}
use banking_payments_api.Dependencies.{get_current_user}
use banking_payments_api.Routers.Auth.{
  UserCreate, TokenResponse, or_http, issue, authenticate, login, new_token,
}
use banking_payments_api.Routers.Auth.Validation.{
  UserOut, register_request, register_request-validates,
}
use banking_payments_api.Routers.Auth.Renewal.{or_http_same}
use banking_payments_api.Routers.Auth.Registration.{registered_user}

module _ (sec : Security) where
  -- the access token that is issued
  issued_access :
      (user : User) (a b : ℕ) (detail : String) (s s' : Session) (r : TokenResponse)
      → issue sec user a b detail s ≡ (ok r, s')
      → r.access_token ≡ create_access_token sec user.id user.is_admin s.now
  unfolding issue or_http
  issued_access user a b detail s s' r e =
      sym (ap (λ (x : TokenResponse). x.access_token) (or_http_same _ r 500 detail _ s' e))

  -- the row of the refresh token that is issued
  abbrev pub issued_token : ℕ → ℕ → ℕ → ℕ → RefreshToken
  issued_token user_id token_id jti now =
      let (raw_refresh, token_hash, expires_at) = create_refresh_token sec user_id jti now in
      new_token token_id user_id token_hash now expires_at

  -- a login that went through: the tokens of the user, and the refresh token stored
  abbrev pub logged_in : ℕ → Bool → ℕ → ℕ → Session → Outcome TokenResponse × Session
  logged_in user_id is_admin token_id jti s = (
    ok (record {
      access_token = create_access_token sec user_id is_admin s.now;
      refresh_token = (create_refresh_token sec user_id jti s.now).0;
    }),
    record s {
      store = record s.store {
        refresh_tokens = issued_token user_id token_id jti s.now ∷ s.store.refresh_tokens;
      };
      unflushed = [];
    },
  )

  login_user :
      (username password : String) (a b : ℕ) (u : User) (s s' : Session) (r : TokenResponse)
      → select (same_email username) s.store.users ≡ u ∷ []
      → login sec username password a b s ≡ (ok r, s')
      → (sec.verify_password password u.hashed_password ≡ true)
        × (r.access_token ≡ create_access_token sec u.id u.is_admin s.now)
  unfolding login authenticate
  login_user username password a b u s s' r selected e =
      elim (Bool-cases (sec.verify_password password u.hashed_password)) [
        | inl right ↦ (right, issued_access u a b _ s s' r (rw (selected, right) at e))
        | inr wrong ↦ absurd (ground arith)
      ]

  admitted :
      (token : String) (u : User) (s : Session)
      → sec.decode_token token s.now ≡ payload (record { type = some "access"; sub = some u.id })
      → select (λ (x : User). x.id == u.id) s.store.users ≡ u ∷ []
      → get_current_user sec token s ≡ (ok u, s)
  unfolding get_current_user
  admitted token u s decoded found = ground arith

  late_token :
      (token : String) (s : Session)
      → sec.decode_token token s.now ≡ expired_signature
      → get_current_user sec token s ≡ (raise (http_exception 401 "Token expirat"), s)
  unfolding get_current_user
  late_token token s decoded = ground arith

  module _ (lawful : IsLawful sec) where
    -- The access token of a login that succeeded is worth the user of that email, whose password was
    -- right, until the token expires, and is refused with 401 from then on: in every later session in
    -- which the query for that user's id gives that user, as the login has found it, and nobody else.
    -- Other users may have come and gone. One row had the email.
    pub login_admits :
        (username password : String) (a b : ℕ) (u : User) (s s' later : Session) (r : TokenResponse)
        → select (same_email username) s.store.users ≡ u ∷ []
        → login sec username password a b s ≡ (ok r, s')
        → select (λ (x : User). x.id == u.id) later.store.users ≡ u ∷ []
        → s.now ≤ later.now
        → (sec.verify_password password u.hashed_password ≡ true)
          × (get_current_user sec r.access_token later ≡ (
            if ltb later.now (s.now + sec.access_token_expire_minutes * 60)
                then ok u
                else raise (http_exception 401 "Token expirat"),
            later,
          ))
    unfolding create_access_token
    login_admits username password a b u s s' later r selected e one issued =
        let (right, token) = login_user username password a b u s s' r selected e in
        let expire = s.now + sec.access_token_expire_minutes * 60 in
        (
          right,
          elim (Bool-cases (ltb later.now expire)) [
            | inl alive ↦
                let decoded =
                  lawful.decodes u.id u.is_admin s.now expire later.now issued (ground arith) in
                rw alive (admitted r.access_token u later (rw token decoded) one)
            | inr late ↦
                let decoded =
                  lawful.expires u.id u.is_admin s.now expire later.now (ground arith) in
                rw late (late_token r.access_token later (rw token decoded))
          ],
        )

    -- the login of a user whose row is the only one with the email, with the right password
    login_issues :
        (email password : String) (a b : ℕ) (u : User) (s : Session)
        → select (same_email email) s.store.users ≡ u ∷ []
        → sec.verify_password password u.hashed_password ≡ true
        → s.unflushed ≡ []
        → refresh_token_error s.store (issued_token u.id a b s.now) ≡ none
        → login sec email password a b s ≡ logged_in u.id u.is_admin a b s
    unfolding login authenticate issue or_http commit flush apply create_refresh_token
    login_issues email password a b u s selected right idle free =
        rw (selected, right, idle, free) refl

    -- Who has registered by a request in a session with nothing to write can log in with the address
    -- in the answer (which is what `EmailStr` makes of the address in the request) and the password of
    -- the request. In every later session with nothing to write in which the query for that address
    -- gives what it gave after the registration, and in which the new refresh token can be stored, the
    -- login answers with the tokens of the registered user, stores the refresh token and writes
    -- nothing else. Other users may have come and gone.
    pub registration_admits :
        (email_of : String → Option String) (u : UserCreate) (user_id account_id a b : ℕ)
        (number : String) (s s' later : Session) (r : UserOut)
        → s.unflushed ≡ []
        → register_request email_of sec u user_id account_id number s ≡ (ok r, s')
        → select (same_email r.email) later.store.users ≡ select (same_email r.email) s'.store.users
        → later.unflushed ≡ []
        → refresh_token_error later.store (issued_token r.id a b later.now) ≡ none
        → login sec r.email u.password a b later ≡ logged_in r.id r.is_admin a b later
    registration_admits email_of u user_id account_id a b number s s' later r clean e kept idle
          free =
        let (email, user, _, _, _, _, _, registered, answer) =
          register_request-validates email_of sec u user_id account_id number s s' r e in
        let (returned, w) =
          registered_user sec (record u { email = email }) user_id account_id number s s' user clean
            registered in
        let address : r.email ≡ email =
          ap (λ (o : UserOut). o.email) answer ∙ ap (λ (x : User). x.email) returned in
        let right : sec.verify_password u.password user.hashed_password ≡ true =
          rw returned (lawful.verifies u.password) in
        let mine : same_email email user ≡ true = rw returned (eq_refl email) in
        let others = select_none (same_email email) s.store.users w.fresh in
        let selected : select (same_email r.email) later.store.users ≡ user ∷ [] =
          kept ∙ rw (address, w.users, mine, others) refl in
        let id : r.id ≡ user.id = ap (λ (o : UserOut). o.id) answer in
        let admin : r.is_admin ≡ user.is_admin = ap (λ (o : UserOut). o.is_admin) answer in
        let done =
          login_issues r.email u.password a b user later selected right idle (rw id at free) in
        rw (id, admin) done
