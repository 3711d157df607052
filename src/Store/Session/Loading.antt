-- ===== src/Store/Session/Loading.antt =====
-- What a loaded account is, and what loading leaves alone.
use mathlib.Core.Path.{subst}
use banking_payments_api.Prelude.{
  ℕ, ◌≡◌, refl, none, some, List, [], ◌∷◌, ap, ◌==◌, Bool-cases, ◌≢◌, inl, inr, arith, Option-cases,
  ◌∙◌, ◌⊎◌,
}
use banking_payments_api.Prelude.Int.{ℤ}
use banking_payments_api.Store.Tables.{
  find, find-id, update, find-update_self, find-update_inv, find-update_ne,
}
use banking_payments_api.Store.Models.{Account, Database, account_id}
use banking_payments_api.Store.Errors.{ok}
use banking_payments_api.Store.Session.{Session, open_session, select_account}

-- Every account of a list has the balance of its row.
abbrev pub AreCurrent : List Account → List Account → Type 0
AreCurrent loaded rows =
    (k : ℕ) (l : Account)
    → find k loaded ≡ some l
    → (row : Account) × (find k rows ≡ some row) × (row.balance ≡ l.balance)

-- Nothing was committed by others since the session loaded its accounts.
abbrev pub IsCurrent : Session → Type 0
IsCurrent s = AreCurrent s.identity_map s.store.accounts

-- A session between two transactions.
pub record IsClean (s : Session) : Type 0 where
  pub current : IsCurrent s
  pub flushed : s.unflushed ≡ []

pub select_missing :
    (k : ℕ) (s : Session) → find k s.store.accounts ≡ none → select_account k s ≡ (ok none, s)
unfolding select_account
select_missing k s h = ground arith

AreCurrent-cons :
    (k : ℕ) (row : Account) (loaded rows : List Account)
    → AreCurrent loaded rows
    → find k rows ≡ some row
    → row.id ≡ k
    → AreCurrent (row ∷ loaded) rows
AreCurrent-cons k row loaded rows current found id j l h = elim (Bool-cases (row.id == j)) [
  | inl same ↦
      let p : k ≡ j = ground arith in
      let q : row ≡ l = ground arith in
      (row, subst (λ n. find n rows ≡ some row) p found, ap (λ (a : Account). a.balance) q)
  | inr other ↦ current j l (ground arith)
]

-- A loaded account; the session behind it differs at most in the identity map.
pub record Loaded (k : ℕ) (s : Session) (row a : Account) (map : List Account) : Type 0 where
  pub selected : select_account k s ≡ (ok (some a), record s { identity_map = map })
  pub found : find k s.store.accounts ≡ some row
  pub id : a.id ≡ k
  pub origin : (find k s.identity_map ≡ some a) ⊎ (a ≡ row)
  pub still_current : IsCurrent s → IsCurrent (record s { identity_map = map })

pub select-Loaded :
    (k : ℕ) (s : Session) (row : Account)
    → find k s.store.accounts ≡ some row
    → (a : Account) × (map : List Account) × Loaded k s row a map
unfolding select_account
select-Loaded k s row h = elim (Option-cases (find row.id s.identity_map)) [
  | inl fresh ↦ (
    row,
    row ∷ s.identity_map,
    record {
      selected = ground arith;
      found = h;
      id = find-id k row s.store.accounts h;
      origin = inr refl;
      still_current = λ current.
          AreCurrent-cons k row s.identity_map s.store.accounts current h
            (find-id k row s.store.accounts h);
    },
  )
  | inr (l, old) ↦ (
    l,
    s.identity_map,
    record {
      selected = ground arith;
      found = h;
      id = find-id row.id l s.identity_map old ∙ find-id k row s.store.accounts h;
      origin = inl (rw (find-id k row s.store.accounts h) at old);
      still_current = λ current. current;
    },
  )
]

-- In a current session the loaded balance is the committed one.
pub Loaded-balance :
    (k : ℕ) (s : Session) (row a : Account) (map : List Account)
    → IsCurrent s
    → Loaded k s row a map
    → a.balance ≡ row.balance
Loaded-balance k s row a map current l = elim l.origin [
  | inl old ↦ let (r, found, same) = current k a old in ground arith
  | inr fresh ↦ rw fresh
]

-- What `with_balance` and an assigned attribute have in common.
module _ (b : ℤ) (f g : Account → Account) where
  pub update-AreCurrent :
      (k : ℕ) (loaded rows : List Account) (row : Account)
      → ((x : Account) → (f x).id ≡ x.id)
      → ((x : Account) → (g x).id ≡ x.id)
      → ((x : Account) → (f x).balance ≡ b)
      → ((x : Account) → (g x).balance ≡ b)
      → find k rows ≡ some row
      → AreCurrent loaded rows
      → AreCurrent (update k f loaded) (update k g rows)
  update-AreCurrent k loaded rows row fi gi fb gb found current j l h = elim (Bool-cases (k == j)) [
    | inl same ↦
        let p : j ≡ k = ground arith in
        let (x, _, e) = find-update_inv k f fi l loaded (rw p at h) in
        (g row, rw p (find-update_self k g gi row rows found), rw (e, fb) (gb row))
    | inr other ↦
        let p : j ≢ k = ground arith in
        let (r, q, e) = current j l (rw (find-update_ne k f fi j loaded p) at h) in
        (r, rw (find-update_ne k g gi j rows p) q, e)
  ]

pub open_session-IsClean : (now : ℕ) (db : Database) → IsClean (open_session now db)
open_session-IsClean now db = record { current = λ k l h. cc; flushed = refl }
