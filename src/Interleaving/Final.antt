-- ===== src/Interleaving/Final.antt =====
-- What becomes of the transactions of a database: they stay, and a settled status is final.
use mathlib.Core.Path.{subst}
use banking_payments_api.Prelude.{
  ℕ, ◌≡◌, refl, ap, ◌∙◌, Option, some, List, arith, inl, inr, true, Bool-cases, ◌==◌,
}
use banking_payments_api.Store.Tables.{find}
use banking_payments_api.Store.Models.{
  Database, Transaction, TransactionStatus, is_pending, transaction_id,
}
use banking_payments_api.Store.Errors.{ok}
use banking_payments_api.Store.Schema.{insert_transaction, set_status, apply}
use banking_payments_api.Ledger.Flow.{apply-set_status, find-insert_transaction}
use banking_payments_api.Ledger.Moves.{Frame}
use banking_payments_api.Book.{Entry, settled, put}
use banking_payments_api.Book.View.{row_of, entry_of, entry_in, entry_in-update}
use banking_payments_api.Book.History.{Later, Later-refl, Later-trans}

-- Every transaction is still there, in a later state.
abbrev pub Final : Frame
Final db db' =
    (k : ℕ) (e : Entry)
    → entry_in db.transactions k ≡ some e
    → (e' : Entry) × (entry_in db'.transactions k ≡ some e') × Later e e'

pub Final-trans : (a b c : Database) → Final a b → Final b c → Final a c
Final-trans a b c p q k e there =
    let (e₁, there₁, later₁) = p k e there in
    let (e₂, there₂, later₂) = q k e₁ there₁ in (e₂, there₂, Later-trans e e₁ e₂ later₁ later₂)

pub same-Final :
    (db db' : Database) → entry_in db'.transactions ≡ entry_in db.transactions → Final db db'
same-Final db db' same k e there = (e, ap (λ f. f k) same ∙ there, Later-refl e)

pub entry_found :
    (rows : List Transaction) (k : ℕ) (t : Transaction)
    → find k rows ≡ some t
    → entry_in rows k ≡ some (entry_of t)
entry_found rows k t found = ground arith

pub insert-Final :
    (now : ℕ) (t : Transaction) (db db' : Database)
    → apply now (insert_transaction t) db ≡ ok db'
    → Final db db'
insert-Final now t db db' written k e there =
    let (row, found, same) = row_of db.transactions k e there in
    let found' = find-insert_transaction now db k t row written found in
    (e, entry_found db'.transactions k row found' ∙ ap some same, Later-refl e)

pub status-Final :
    (now k : ℕ) (st : TransactionStatus) (d : Option (List ℕ)) (t : Transaction) (db db' : Database)
    → find k db.transactions ≡ some t
    → is_pending t.status ≡ true
    → apply now (set_status k st d) db ≡ ok db'
    → Final db db'
status-Final now k st d t db db' found waiting written j e there =
    let entries : entry_in db'.transactions
        ≡ put k (settled st (entry_of t)) (entry_in db.transactions) =
      ap (λ (b : Database). entry_in b.transactions) (apply-set_status now db k st d written)
      ∙ entry_in-update now k st d t db.transactions found in
    elim (Bool-cases (k == j)) [
      | inl same ↦
          let p : k ≡ j = ground arith in
          let here : entry_in db.transactions j ≡ some (entry_of t) =
            subst (λ n. entry_in db.transactions n ≡ some (entry_of t)) p
              (entry_found db.transactions k t found) in
          let q : entry_of t ≡ e = ground arith in
          (
            settled st (entry_of t),
            rw (entries, same) refl,
            rw (← q) (record {
              account = refl;
              related = refl;
              amount = refl;
              final = λ h. absurd (ground arith);
            }),
          )
      | inr other ↦ (e, rw (entries, other) there, Later-refl e)
    ]
