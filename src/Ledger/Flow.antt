-- ===== src/Ledger/Flow.antt =====
-- How each written change moves the funds.
use banking_payments_api.Prelude.{
  ℕ, ◌≡◌, ap, Option, some, List, [], ◌∷◌, arith, inl, inr, Bool-cases, ◌==◌,
}
use banking_payments_api.Prelude.Int.{ℤ, ◌+ℤ◌, +ℤ_under, int_laws}
use banking_payments_api.Store.Tables.{find, update, total-update}
use banking_payments_api.Store.Models.{
  Database, Account, Transaction, TransactionStatus, account_id, transaction_id,
}
use banking_payments_api.Store.Errors.{ok, Outcome-cases}
use banking_payments_api.Store.Schema.{
  Change, insert_transaction, set_balance, set_status, with_balance, with_status, apply, flush,
  transaction_error,
}
use banking_payments_api.Ledger.{balance_of, held_by, funds}

module _ (now : ℕ) (db : Database) {db' : Database} where
  pub funds-insert_transaction :
      (t : Transaction)
      → apply now (insert_transaction t) db ≡ ok db'
      → funds db' ≡ funds db +ℤ held_by t
  unfolding apply funds
  funds-insert_transaction t e = grind int_laws

  pub funds-set_balance :
      (k : ℕ) (b : ℤ) (a : Account)
      → find k db.accounts ≡ some a
      → apply now (set_balance k b) db ≡ ok db'
      → funds db' +ℤ a.balance ≡ funds db +ℤ b
  unfolding apply funds
  funds-set_balance k b a found e =
      grind (int_laws, total-update balance_of k (with_balance now b) a db.accounts found)

  -- a written balance leaves all but the accounts
  pub apply-set_balance :
      (k : ℕ) (b : ℤ)
      → apply now (set_balance k b) db ≡ ok db'
      → db' ≡ record db { accounts = update k (with_balance now b) db.accounts }
  unfolding apply
  apply-set_balance k b e = ground arith

  pub apply-insert_transaction :
      (t : Transaction)
      → apply now (insert_transaction t) db ≡ ok db'
      → db' ≡ record db { transactions = t ∷ db.transactions }
  unfolding apply
  apply-insert_transaction t e = ground arith

  -- a written status leaves all but the one row
  pub apply-set_status :
      (k : ℕ) (st : TransactionStatus) (d : Option (List ℕ))
      → apply now (set_status k st d) db ≡ ok db'
      → db' ≡ record db { transactions = update k (with_status now st d) db.transactions }
  unfolding apply
  apply-set_status k st d e = ground arith

  pub funds-set_status :
      (k : ℕ) (st : TransactionStatus) (d : Option (List ℕ)) (t : Transaction)
      → find k db.transactions ≡ some t
      → apply now (set_status k st d) db ≡ ok db'
      → funds db' +ℤ held_by t ≡ funds db +ℤ held_by (with_status now st d t)
  unfolding funds
  funds-set_status k st d t found e =
      rw (apply-set_status k st d e)
        (+ℤ_under _ _ _ _ _ (total-update held_by k (with_status now st d) t db.transactions found))

  -- a new transaction has a new id, so the rows that were there are found as before
  pub find-insert_transaction :
      (k : ℕ) (t u : Transaction)
      → apply now (insert_transaction t) db ≡ ok db'
      → find k db.transactions ≡ some u
      → find k db'.transactions ≡ some u
  unfolding apply transaction_error
  find-insert_transaction k t u e h = elim (Bool-cases (t.id == k)) [
    | inl same ↦
        let p : t.id ≡ k = ground arith in ground (arith, ap (λ j. find j db.transactions) p)
    | inr other ↦ ground arith
  ]

-- A flush of several changes goes through the databases between them.
pub flush-cons :
    (now : ℕ) (c : Change) (cs : List Change) (db : Database) {db' : Database}
    → flush now (c ∷ cs) db ≡ ok db'
    → (mid : Database) × (apply now c db ≡ ok mid) × (flush now cs mid ≡ ok db')
unfolding flush
flush-cons now c cs db e = elim (Outcome-cases (apply now c db)) [
  | inl (mid, applied) ↦ (mid, applied, rw applied at e)
  | inr (x, raised) ↦ ground arith
]

pub flush-one :
    (now : ℕ) (c : Change) (db : Database) {db' : Database}
    → flush now (c ∷ []) db ≡ ok db'
    → apply now c db ≡ ok db'
unfolding flush
flush-one now c db e = ground arith
