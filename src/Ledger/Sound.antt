-- ===== src/Ledger/Sound.antt =====
-- The invariant of the money: no balance is negative, and every recorded amount is positive.
use mathlib.Core.Path.{subst}
use banking_payments_api.Prelude.{ℕ, ◌≡◌, sym, Option, List, [], ◌∷◌, map, arith}
use banking_payments_api.Prelude.Int.{ℤ, pos, ◌≤ℤ◌}
use banking_payments_api.Prelude.Lists.{All}
use banking_payments_api.Store.Tables.{All-find, All-update}
use banking_payments_api.Store.Models.{
  Database, Account, Transaction, TransactionStatus, IdempotencyKey, account_id, transaction_id,
}
use banking_payments_api.Store.Errors.{ok}
use banking_payments_api.Store.Schema.{
  insert_transaction, set_balance, set_status, with_balance, with_status, detach, apply,
}
use banking_payments_api.Store.Session.{Session}
use banking_payments_api.Store.Session.Loading.{IsCurrent, Loaded, Loaded-balance}
use banking_payments_api.Ledger.Flow.{apply-set_balance, apply-set_status, apply-insert_transaction}

abbrev pub IsSolvent : Account → Type 0
IsSolvent a = pos 0 ≤ℤ a.balance

abbrev pub IsPositive : Transaction → Type 0
IsPositive t = pos 1 ≤ℤ t.amount

pub record IsSound (db : Database) : Type 0 where
  pub solvent : All IsSolvent db.accounts
  pub positive : All IsPositive db.transactions

module _ (now : ℕ) (db : Database) {db' : Database} where
  pub set_balance-IsSound :
      (k : ℕ) (b : ℤ)
      → apply now (set_balance k b) db ≡ ok db'
      → pos 0 ≤ℤ b
      → IsSound db
      → IsSound db'
  set_balance-IsSound k b e nonneg h = rw (apply-set_balance now db k b e) (record {
    solvent = All-update IsSolvent k (with_balance now b) db.accounts h.solvent (λ x f. nonneg);
    positive = h.positive;
  })

  pub insert_transaction-IsSound :
      (t : Transaction)
      → apply now (insert_transaction t) db ≡ ok db'
      → IsPositive t
      → IsSound db
      → IsSound db'
  insert_transaction-IsSound t e p h =
      rw (apply-insert_transaction now db t e)
        (record { solvent = h.solvent; positive = (p, h.positive) })

  pub set_status-IsSound :
      (k : ℕ) (st : TransactionStatus) (d : Option (List ℕ))
      → apply now (set_status k st d) db ≡ ok db'
      → IsSound db
      → IsSound db'
  set_status-IsSound k st d e h = rw (apply-set_status now db k st d e) (record {
    solvent = h.solvent;
    positive =
        All-update IsPositive k (with_status now st d) db.transactions h.positive
          (λ x f. All-find IsPositive k x db.transactions h.positive f);
  })

amount-detach : (kept : List IdempotencyKey) (t : Transaction) → (detach kept t).amount ≡ t.amount
amount-detach kept t = ground arith

pub All-detach :
    (kept : List IdempotencyKey) (ts : List Transaction)
    → All IsPositive ts
    → All IsPositive (map (detach kept) ts)
All-detach kept [] h = tt
All-detach kept (t ∷ ts) h =
    (subst (λ x. pos 1 ≤ℤ x) (sym (amount-detach kept t)) h.0, All-detach kept ts h.1)

-- In a current session a loaded balance is not negative.
pub Loaded-nonneg :
    (k : ℕ) (s : Session) (row a : Account) (im : List Account)
    → IsCurrent s
    → Loaded k s row a im
    → IsSound s.store
    → pos 0 ≤ℤ a.balance
Loaded-nonneg k s row a im current l h =
    subst (λ b. pos 0 ≤ℤ b) (sym (Loaded-balance k s row a im current l))
      (All-find IsSolvent k row s.store.accounts h.solvent l.found)
