-- ===== src/Store/Session.antt =====
-- A SQLAlchemy session of app/database.py: `expire_on_commit=False`, `autoflush=False`.
-- Writes wait in the session until a commit. A row that the session has loaded stays in its identity
-- map, and a later query for it answers with that object, whatever the database holds by then.
pub mod Loading
pub mod Reading
use banking_payments_api.Prelude.{
  ℕ, ◌≡◌, refl, ◌⊎◌, inl, inr, arith, Bool, Option, none, some, List, [], ◌∷◌, ◌++◌,
}
use banking_payments_api.Prelude.Int.{ℤ}
use banking_payments_api.Prelude.Lists.{select}
use banking_payments_api.Store.Tables.{find, update}
use banking_payments_api.Store.Models.{Database, Account, account_id}
use banking_payments_api.Store.Errors.{Exc, Outcome, ok, raise, no_result_found, multiple_results}
use banking_payments_api.Store.Schema.{Change, set_balance, flush}

pub record Session : Type 0 where
  -- `datetime.now`, and the database's clock
  pub now : ℕ
  -- the committed rows
  pub store : Database
  pub identity_map : List Account
  pub unflushed : List Change

abbrev pub open_session : ℕ → Database → Session
open_session now db = record { now = now; store = db; identity_map = []; unflushed = [] }

abbrev pub Action : Type 0 → Type 0
Action A = Session → Outcome A × Session

module _ {A : Type 0} where
  abbrev pub pure : A → Action A
  pure a s = (ok a, s)

  abbrev pub throw : Exc → Action A
  throw e s = (raise e, s)

  -- a query that reads the committed rows
  abbrev pub gets : (Session → A) → Action A
  gets f s = (ok (f s), s)

  abbrev pub scalar_one : Option A → Action A
  scalar_one none = throw no_result_found
  scalar_one (some a) = pure a

-- of a query that may have several rows
abbrev pub scalar_one_or_none : {A : Type 0} → List A → Action (Option A)
scalar_one_or_none [] = pure none
scalar_one_or_none (x ∷ []) = pure (some x)
scalar_one_or_none _ = throw multiple_results

infixl 5 ◌>>=◌ ◌>>◌
abbrev pub ◌>>=◌ : {A B : Type 0} → Action A → (A → Action B) → Action B
◌>>=◌ m f s = let (r, s') = m s in elim r [ ok a ↦ f a s' | raise e ↦ (raise e, s') ]

abbrev pub ◌>>◌ : {A B : Type 0} → Action A → Action B → Action B
m >> k = m >>= λ _. k

-- `db.add`, or the assignment of a column, or `db.execute(delete(…))`
abbrev pub register : Change → Action (Unit {0})
register c s = (ok tt, record s { unflushed = s.unflushed ++ c ∷ [] })

-- a failed flush is rolled back by the database
unfoldable pub commit : Action (Unit {0})
commit s = elim (flush s.now s.unflushed s.store) [
  | ok db ↦ (ok tt, record s { store = db; unflushed = [] })
  | raise e ↦ (raise e, s)
]

-- also expires every loaded object
unfoldable pub rollback : Action (Unit {0})
rollback s = (ok tt, record s { identity_map = []; unflushed = [] })

-- a loaded account enters the identity map, or is answered from there
abbrev pub remember : Option Account → Action (Option Account)
remember none s = (ok none, s)
remember (some row) s = elim (find row.id s.identity_map) [
  | none ↦ (ok (some row), record s { identity_map = row ∷ s.identity_map })
  | some loaded ↦ (ok (some loaded), s)
]

-- `select(Account).where(Account.id == id).with_for_update()`
unfoldable pub select_account : ℕ → Action (Option Account)
select_account id s = remember (find id s.store.accounts) s

-- the object for the row of another query
abbrev pub load_row : Option Account → Action (Option Account)
load_row none = pure none
load_row (some row) = select_account row.id

-- `select(Account).where(…)` for at most one row
unfoldable pub select_one_account : (Account → Bool) → Action (Option Account)
select_one_account test = do
  rows ← gets (λ s. select test s.store.accounts)
  found ← scalar_one_or_none rows
  load_row found

-- `account.balance = balance` on a loaded account
unfoldable pub assign_balance : Account → ℤ → Action (Unit {0})
assign_balance a balance s = (
  ok tt,
  record s {
    identity_map = update a.id (λ l. record l { balance = balance }) s.identity_map;
    unflushed = s.unflushed ++ set_balance a.id balance ∷ [];
  },
)

module _ {A B : Type 0} (m : Action A) (f : A → Action B) {s s' : Session} where
  pub >>=-of_ok : {a : A} → m s ≡ (ok a, s') → (m >>= f) s ≡ f a s'
  >>=-of_ok e = ground arith

  pub >>=-of_raise : {x : Exc} → m s ≡ (raise x, s') → (m >>= f) s ≡ (raise x, s')
  >>=-of_raise e = ground arith

-- How an action ends at a session.
pub Action-cases :
    {A : Type 0} (m : Action A) (s : Session)
    → ((a : A) × (s' : Session) × (m s ≡ (ok a, s')))
      ⊎ ((x : Exc) × (s' : Session) × (m s ≡ (raise x, s')))
Action-cases {A} m s = split (m s) refl
  where
    split :
        (r : Outcome A × Session)
        → m s ≡ r
        → ((a : A) × (s' : Session) × (m s ≡ (ok a, s')))
          ⊎ ((x : Exc) × (s' : Session) × (m s ≡ (raise x, s')))
    split (ok a, s') e = inl (a, s', e)
    split (raise x, s') e = inr (x, s', e)
