-- ===== src/Book.antt =====
-- What the bank promises its customers, without sessions, tables and times: balances, transactions
-- and how they follow one another. The services of app/services/*.py are compared with it below.
pub mod View
pub mod Services
pub mod Settling
pub mod Following
pub mod History
pub mod Once
pub mod Expiring
use banking_payments_api.Prelude.{
  ℕ, Bool, given, Option, none, some, List, [], ◌∷◌, true, false, if◌then◌else◌, ◌==◌,
}
use banking_payments_api.Prelude.Int.{ℤ, pos, ◌+ℤ◌, ◌-ℤ◌, ltb_ℤ}
use banking_payments_api.Store.Models.{TransactionStatus, is_pending, pending, completed, failed}

-- a transaction: whose it is, the other side, and what has become of it
pub record Entry : Type 0 where
  pub account : ℕ
  pub related : Option ℕ
  pub amount : ℤ
  pub status : TransactionStatus

pub record Book : Type 0 where
  pub balance : ℕ → Option ℤ
  pub entry : ℕ → Option Entry

-- What a customer, the gateway or the passing of time asks for. `k` is the account or the
-- transaction that it is about, `n` the id of the new transaction.
pub data Command : Type 0 where
  open_account : (k : ℕ) → Command
  deposit : (k n : ℕ) → ℤ → Command
  pay : (k n r : ℕ) → ℤ → Command
  confirm : (k n : ℕ) → Command
  cancel expire : (k : ℕ) → Command

abbrev pub put : {A : Type 0} → ℕ → A → (ℕ → Option A) → ℕ → Option A
put k a f j = if k == j then some a else f j

unfoldable pub set : ℕ → ℤ → Book → Book
set k b book = record book { balance = put k b book.balance }

unfoldable pub write : ℕ → Entry → Book → Book
write k e book = record book { entry = put k e book.entry }

abbrev pub settled : TransactionStatus → Entry → Entry
settled st e = record e { status = st }

-- a new transaction under an id that is not taken
abbrev pub enter : ℕ → Entry → Book → Option Book
enter n e book = elim (book.entry n) [ none ↦ some (write n e book) | some _ ↦ none ]

-- the amount of a transaction that failed goes back to its account
abbrev pub refund : ℕ → Entry → Book → Option Book
refund k e book =
    given (book.balance e.account)
      (λ b. some (write k (settled failed e) (set e.account (b +ℤ e.amount) book)))

-- A command on a book: the book after it, or none where the bank refuses.
unfoldable pub step : Command → Book → Option Book
step (open_account k) book = elim (book.balance k) [
  | none ↦ some (set k (pos 0) book)
  | some _ ↦ none
]
step (deposit k n x) book = given (book.balance k) (λ b.
    enter n (record { account = k; related = none; amount = x; status = completed })
      (set k (b +ℤ x) book))
step (pay k n r x) book = given (book.balance k) (λ b.
    if ltb_ℤ b x
    then enter n (record { account = k; related = some r; amount = x; status = failed }) book
    else enter n (record { account = k; related = some r; amount = x; status = pending })
        (set k (b -ℤ x) book))
step (confirm k n) book = given (book.entry k) (λ e. given e.related (λ r.
    given (book.balance r) (λ b.
      if is_pending e.status
      then given
          (enter n
            (record {
              account = r;
              related = some e.account;
              amount = e.amount;
              status = completed;
            })
            (set r (b +ℤ e.amount) book))
          (λ entered. some (write k (settled completed e) entered))
      else none)))
step (cancel k) book =
    given (book.entry k) (λ e. if is_pending e.status then refund k e book else none)
step (expire k) book = elim (book.entry k) [
  | none ↦ some book
  | some e ↦ if is_pending e.status then refund k e book else some book
]

-- one command after the other
unfoldable pub run : List Command → Book → Option Book
run [] book = some book
run (c ∷ cs) book = given (step c book) (run cs)

-- what a delivery may ask for
abbrev pub is_settlement : Command → Bool
is_settlement (confirm k n) = true
is_settlement (cancel k) = true
is_settlement _ = false
