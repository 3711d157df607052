-- ===== src/Routers/Auth/Registration.antt =====
-- What a registration that succeeds has written.
use Prim.Native.String.{String}
use mathlib.Core.Path.{subst}
use banking_payments_api.Prelude.{
  ℕ, ◌≡◌, refl, sym, ap, Option, none, some, List, [], ◌∷◌, arith, false, Option-cases, inl, inr,
}
use banking_payments_api.Prelude.Int.{pos, int_laws}
use banking_payments_api.Store.Tables.{find}
use banking_payments_api.Store.Models.{User, Account, Database, account_id}
use banking_payments_api.Store.Errors.{ok}
use banking_payments_api.Store.Schema.{
  account_error, insert_user, insert_account, same_email, user_error, apply, flush, any_row,
}
use banking_payments_api.Store.Session.{Session, ◌>>=◌, scalar_one_or_none}
use banking_payments_api.Ledger.{funds}
use banking_payments_api.Ledger.Sound.{IsSound}
use banking_payments_api.Security.{Security}
use banking_payments_api.Routers.Auth.{UserCreate, new_user, new_account, create_user, register}
use banking_payments_api.Routers.Auth.Renewal.{or_http_ok, or_http_same, commit_ok}

-- A new user without the email of another, and an account without money.
pub record Registered (email : String) (u : User) (a : Account) (db db' : Database) : Type 0 where
  pub fresh : any_row (same_email email) db.users ≡ false
  pub opened : find a.id db.accounts ≡ none
  pub users : db'.users ≡ u ∷ db.users
  pub accounts : db'.accounts ≡ a ∷ db.accounts
  pub transactions : db'.transactions ≡ db.transactions

flush_registration :
    (now : ℕ) (u : User) (a : Account) (db db' : Database)
    → flush now (insert_user u ∷ insert_account a ∷ []) db ≡ ok db'
    → Registered u.email u a db db'
unfolding flush apply user_error account_error
flush_registration now u a db db' e = record {
  fresh = ground arith;
  opened = elim (Option-cases (find a.id db.accounts)) [
    | inl free ↦ free
    | inr (b, taken) ↦ absurd (ground arith)
  ];
  users = ground arith;
  accounts = ground arith;
  transactions = ground arith;
}

-- A new account without money adds nothing to the funds, and keeps the invariant.
Registered-funds :
    {email : String} {u : User} {a : Account} {db db' : Database}
    → Registered email u a db db'
    → a.balance ≡ pos 0
    → (funds db' ≡ funds db) × (IsSound db → IsSound db')
unfolding funds
Registered-funds {a} {db} w empty = (
  rw (w.accounts, w.transactions, empty) (omega int_laws),
  λ h. record {
    solvent = rw w.accounts (rw empty (omega arith), h.solvent);
    positive = rw w.transactions h.positive;
  },
)

module _ (sec : Security) (user_in : UserCreate) (user_id account_id : ℕ) (number : String)
    (s s' : Session) (r : User) (clean : s.unflushed ≡ []) where
  -- the user that is added
  abbrev pub added : User
  added =
      new_user user_id user_in.email (sec.hash_password user_in.password) user_in.full_name s.now

  created :
      (o : Option User)
      → create_user sec user_in user_id account_id number o s ≡ (ok r, s')
      → (added ≡ r)
        × Registered user_in.email added
            (new_account account_id user_id number s.now)
            s.store
            s'.store
  unfolding create_user
  created (some _) e = cc
  created none e =
      let flushed = commit_ok _ s' (or_http_ok added r 409 _ _ s' e) in
      (
        or_http_same added r 409 _ _ s' e,
        flush_registration s.now added (new_account account_id user_id number s.now) s.store
            s'.store (rw clean at flushed),
      )

  looked_up :
      (rows : List User)
      → (scalar_one_or_none rows >>= create_user sec user_in user_id account_id number) s
        ≡ (ok r, s')
      → (added ≡ r)
        × Registered user_in.email added
            (new_account account_id user_id number s.now)
            s.store
            s'.store
  looked_up [] e = created none e
  looked_up (x ∷ []) e = created (some x) e
  looked_up (x ∷ y ∷ xs) e = cc

  pub registered_user :
      register sec user_in user_id account_id number s ≡ (ok r, s')
      → (r ≡ added)
        × Registered user_in.email r (new_account account_id user_id number s.now) s.store s'.store
  unfolding register
  registered_user e =
      let (returned, w) = looked_up _ e in
      (
        sym returned,
        subst
            (λ x.
              Registered user_in.email x (new_account account_id user_id number s.now) s.store
                s'.store)
            returned w,
      )

  -- A registration that succeeds in a session with nothing to write adds the user that it returns,
  -- whose email is the one that was asked for and is no other user's, and an account of that user
  -- without money. The funds of the bank stay as they were, and no balance is negative if none was.
  pub registration_opens :
      register sec user_in user_id account_id number s ≡ (ok r, s')
      → (r.email ≡ user_in.email)
        × Registered user_in.email r (new_account account_id user_id number s.now) s.store s'.store
        × (funds s'.store ≡ funds s.store)
        × (IsSound s.store → IsSound s'.store)
  registration_opens e =
      let (returned, w) = registered_user e in
      let (kept, sound) = Registered-funds w refl in
      (ap (λ (x : User). x.email) returned, w, kept, sound)
