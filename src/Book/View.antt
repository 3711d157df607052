-- ===== src/Book/View.antt =====
-- A database as a book, and what the statements of a flush do to it.
use mathlib.Core.Path.{fun_ext}
use banking_payments_api.Prelude.{
  ℕ, ◌≡◌, refl, ap, Bool-cases, Option-cases, inl, inr, Option, none, some, List, ◌∷◌, arith, ◌==◌,
}
use banking_payments_api.Prelude.Int.{ℤ}
use banking_payments_api.Store.Tables.{find, update, find-update_self, find-update_ne}
use banking_payments_api.Store.Models.{
  Database, Account, Transaction, TransactionStatus, account_id, transaction_id,
}
use banking_payments_api.Store.Errors.{ok}
use banking_payments_api.Store.Schema.{
  apply, insert_transaction, set_balance, set_status, with_balance, with_status, transaction_error,
}
use banking_payments_api.Ledger.Flow.{apply-set_balance, apply-set_status, apply-insert_transaction}
use banking_payments_api.Book.{Entry, Book, put, set, write, settled}

abbrev pub entry_of : Transaction → Entry
entry_of t = record {
  account = t.account_id;
  related = t.related_account_id;
  amount = t.amount;
  status = t.status;
}

abbrev pub balance_in : List Account → ℕ → Option ℤ
balance_in rows k = elim (find k rows) [ none ↦ none | some a ↦ some a.balance ]

abbrev pub entry_in : List Transaction → ℕ → Option Entry
entry_in rows k = elim (find k rows) [ none ↦ none | some t ↦ some (entry_of t) ]

unfoldable pub view : Database → Book
view db = record { balance = balance_in db.accounts; entry = entry_in db.transactions }

balance_in-update :
    (now k : ℕ) (b : ℤ) (row : Account) (rows : List Account)
    → find k rows ≡ some row
    → balance_in (update k (with_balance now b) rows) ≡ put k b (balance_in rows)
balance_in-update now k b row rows found = fun_ext (λ j. elim (Bool-cases (k == j)) [
  | inl same ↦
      let p : j ≡ k = ground arith in
      rw p (ground (arith, find-update_self k (with_balance now b) (λ x. refl) row rows found))
  | inr other ↦ ground (arith, find-update_ne k (with_balance now b) (λ x. refl) j rows)
])

pub entry_in-update :
    (now k : ℕ) (st : TransactionStatus) (d : Option (List ℕ)) (row : Transaction)
    (rows : List Transaction)
    → find k rows ≡ some row
    → entry_in (update k (with_status now st d) rows)
      ≡ put k (settled st (entry_of row)) (entry_in rows)
entry_in-update now k st d row rows found = fun_ext (λ j. elim (Bool-cases (k == j)) [
  | inl same ↦
      let p : j ≡ k = ground arith in
      rw p (ground (arith, find-update_self k (with_status now st d) (λ x. refl) row rows found))
  | inr other ↦ ground (arith, find-update_ne k (with_status now st d) (λ x. refl) j rows)
])

entry_in-cons :
    (t : Transaction) (rows : List Transaction)
    → entry_in (t ∷ rows) ≡ put t.id (entry_of t) (entry_in rows)
entry_in-cons t rows =
    fun_ext
      (λ j. elim (Bool-cases (t.id == j)) [ inl same ↦ ground arith | inr other ↦ ground arith ])

pub balance_in-cons :
    (a : Account) (rows : List Account)
    → balance_in (a ∷ rows) ≡ put a.id a.balance (balance_in rows)
balance_in-cons a rows =
    fun_ext
      (λ j. elim (Bool-cases (a.id == j)) [ inl same ↦ ground arith | inr other ↦ ground arith ])

pub view-balance :
    (db : Database) (k : ℕ) (a : Account)
    → find k db.accounts ≡ some a
    → (view db).balance k ≡ some a.balance
unfolding view
view-balance db k a found = ground arith

pub view-entry :
    (db : Database) (k : ℕ) (t : Transaction)
    → find k db.transactions ≡ some t
    → (view db).entry k ≡ some (entry_of t)
unfolding view
view-entry db k t found = ground arith

-- the row behind an entry
pub row_of :
    (rows : List Transaction) (k : ℕ) (e : Entry)
    → entry_in rows k ≡ some e
    → (t : Transaction) × (find k rows ≡ some t) × (entry_of t ≡ e)
row_of rows k e there = elim (Option-cases (find k rows)) [
  | inl gone ↦ absurd (ground arith)
  | inr (t, found) ↦ (t, found, ground arith)
]

module _ (now : ℕ) (db : Database) {db' : Database} where
  pub view-set_balance :
      (k : ℕ) (b : ℤ) (row : Account)
      → find k db.accounts ≡ some row
      → apply now (set_balance k b) db ≡ ok db'
      → view db' ≡ set k b (view db)
  unfolding view set
  view-set_balance k b row found e = rw (apply-set_balance now db k b e) (
      ap (λ f. record { balance = f; entry = entry_in db.transactions })
        (balance_in-update now k b row db.accounts found))

  pub view-set_status :
      (k : ℕ) (st : TransactionStatus) (d : Option (List ℕ)) (row : Transaction)
      → find k db.transactions ≡ some row
      → apply now (set_status k st d) db ≡ ok db'
      → view db' ≡ write k (settled st (entry_of row)) (view db)
  unfolding view write
  view-set_status k st d row found e = rw (apply-set_status now db k st d e) (
      ap (λ f. record { balance = balance_in db.accounts; entry = f })
        (entry_in-update now k st d row db.transactions found))

  -- a row is accepted only under a new id
  pub view-insert_transaction :
      (t : Transaction)
      → apply now (insert_transaction t) db ≡ ok db'
      → (view db' ≡ write t.id (entry_of t) (view db)) × ((view db).entry t.id ≡ none)
  unfolding view write apply transaction_error
  view-insert_transaction t e = (
    rw (apply-insert_transaction now db t e) (
        ap (λ f. record { balance = balance_in db.accounts; entry = f })
          (entry_in-cons t db.transactions)),
    elim (Option-cases (find t.id db.transactions)) [
      | inl free ↦ ground arith
      | inr (u, taken) ↦ absurd (ground arith)
    ],
  )
