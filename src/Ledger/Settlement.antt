-- ===== src/Ledger/Settlement.antt =====
-- Settling a pending transaction releases what it reserved.
use banking_payments_api.Prelude.{ℕ, ◌≡◌, ap, ◌∙◌, Option, some, List, [], ◌∷◌, true, false, arith}
use banking_payments_api.Prelude.Int.{ℤ, pos, pos_part, neg_part, ◌-ℤ◌, int_laws}
use banking_payments_api.Store.Tables.{find}
use banking_payments_api.Store.Models.{
  Database, Transaction, TransactionStatus, is_pending, transaction_id,
}
use banking_payments_api.Store.Errors.{ok}
use banking_payments_api.Store.Schema.{
  insert_transaction, set_balance, set_status, with_status, apply,
}
use banking_payments_api.Ledger.{held_by}
use banking_payments_api.Ledger.Flow.{
  flush-cons, flush-one, funds-insert_transaction, funds-set_status, apply-insert_transaction,
  apply-set_status, apply-set_balance, find-insert_transaction,
}
use banking_payments_api.Ledger.Moves.{
  Adds, SameRecords-insert, SameRecords-status, SameRecords-trans,
}
use banking_payments_api.Ledger.Sound.{
  IsSound, IsPositive, set_status-IsSound, insert_transaction-IsSound,
}

held_by-with_status :
    (now : ℕ) (st : TransactionStatus) (d : Option (List ℕ)) (t : Transaction)
    → is_pending st ≡ false
    → held_by (with_status now st d t) ≡ pos 0
unfolding held_by
held_by-with_status now st d t e = ground arith

held_by_pending : (t : Transaction) → is_pending t.status ≡ true → held_by t ≡ t.amount
unfolding held_by
held_by_pending t e = ground arith

-- Written by a balance, a transaction stays as it was.
pub find-set_balance :
    (now k : ℕ) (b : ℤ) (j : ℕ) (t : Transaction) (db mid : Database)
    → apply now (set_balance k b) db ≡ ok mid
    → find j db.transactions ≡ some t
    → find j mid.transactions ≡ some t
find-set_balance now k b j t db mid e h = rw (apply-set_balance now db k b e) h

module _ (now : ℕ) (st : TransactionStatus) (d : Option (List ℕ)) (k : ℕ) (t : Transaction)
    (db mid : Database) (settles : is_pending st ≡ false) (was_pending : is_pending t.status ≡ true)
    (found : find k mid.transactions ≡ some t) where
  pub Adds-status : Adds now (set_status k st d ∷ []) (pos 0 -ℤ t.amount) db mid
  Adds-status db' flushed =
      let e = flush-one now (set_status k st d) mid flushed in
      let p = funds-set_status now mid k st d t found e in
      let q = held_by-with_status now st d t settles in
      let r = held_by_pending t was_pending in
      (
        omega (
          int_laws,
          ap pos_part p,
          ap neg_part p,
          ap pos_part q,
          ap neg_part q,
          ap pos_part r,
          ap neg_part r,
        ),
        ap (λ (x : Database). x.accounts) (apply-set_status now mid k st d e),
        SameRecords-status now k st d mid db' e,
        λ _ h. set_status-IsSound now mid k st d e h,
      )

module _ (now : ℕ) (st : TransactionStatus) (d : Option (List ℕ)) (k : ℕ) (t u : Transaction)
    (db mid : Database) (settles : is_pending st ≡ false) (was_pending : is_pending t.status ≡ true)
    (found : find k mid.transactions ≡ some t) (new_settled : held_by u ≡ pos 0)
    (new_positive : IsSound db → IsPositive u) where
  pub Adds-row_and_status :
      Adds now (insert_transaction u ∷ set_status k st d ∷ []) (pos 0 -ℤ t.amount) db mid
  Adds-row_and_status db' flushed =
      let (next, first, rest) =
        flush-cons now (insert_transaction u) (set_status k st d ∷ []) mid flushed in
      let p = funds-insert_transaction now mid u first in
      let (q, same, records, sound) =
        Adds-status now st d k t db next settles was_pending
          (find-insert_transaction now mid k u t first found) db' rest in
      (
        omega (
          int_laws,
          ap pos_part p,
          ap neg_part p,
          ap pos_part q,
          ap neg_part q,
          ap pos_part new_settled,
          ap neg_part new_settled,
        ),
        same ∙ ap (λ (x : Database). x.accounts) (apply-insert_transaction now mid u first),
        SameRecords-trans mid next db' (SameRecords-insert now u mid next first) records,
        λ h h'. sound h (insert_transaction-IsSound now mid u first (new_positive h) h'),
      )
