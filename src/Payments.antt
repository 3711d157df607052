-- ===== src/Payments.antt =====
-- app/services/payments.py. `new_id` is what `uuid.uuid4()` gives the row that the call creates.
pub mod Effect
pub mod Rows
pub mod Overlap
use Prim.Native.String.{String}
use text.Mathlib.Text.{◌==◌}
use banking_payments_api.Prelude.{ℕ, Option, none, some, List, if◌then◌else◌}
use banking_payments_api.Prelude.Int.{ℤ, ◌+ℤ◌, ◌-ℤ◌, ltb_ℤ}
use banking_payments_api.Prelude.Lists.{select}
use banking_payments_api.Store.Models.{
  Account, Transaction, TransactionType, TransactionStatus, Database,
}
use banking_payments_api.Store.Schema.{insert_transaction}
use banking_payments_api.Store.Session.{
  Session, Action, pure, gets, scalar_one, scalar_one_or_none, ◌>>=◌, ◌>>◌, register, commit,
  select_account, select_one_account, assign_balance,
}

unfoldable pub get_account_by_number : String → Action (Option Account)
get_account_by_number account_number = select_one_account (λ a. a.account_number == account_number)

-- the row that `execute_deposit` adds
abbrev pub deposit_row : ℕ → ℕ → ℤ → Option (List ℕ) → ℕ → Transaction
deposit_row new_id account_id amount description now = record {
  id = new_id;
  account_id = account_id;
  related_account_id = none;
  idempotency_key_id = none;
  type = TransactionType.deposit;
  status = TransactionStatus.completed;
  amount = amount;
  description = description;
  created_at = now;
  updated_at = now;
}

unfoldable pub execute_deposit : ℕ → ℤ → Option (List ℕ) → ℕ → Action Transaction
execute_deposit account_id amount description new_id = do
  account ← select_account account_id >>= scalar_one
  assign_balance account (account.balance +ℤ amount)
  now ← gets (λ s. s.now)
  let transaction = deposit_row new_id account_id amount description now
  register (insert_transaction transaction)
  commit
  pure transaction

-- a payment as `execute_payment` records it, with the status that its branch gives
abbrev pub payment_row : ℕ → ℕ → ℕ → ℤ → Option (List ℕ) → ℕ → TransactionStatus → ℕ → Transaction
payment_row new_id sender recipient amount description key status now = record {
  id = new_id;
  account_id = sender;
  related_account_id = some recipient;
  idempotency_key_id = some key;
  type = TransactionType.payment;
  status = status;
  amount = amount;
  description = description;
  created_at = now;
  updated_at = now;
}

-- the `if` of `execute_payment`: the status of the new row; a covered amount is reserved
unfoldable pub reserve_funds : Account → ℤ → Action TransactionStatus
reserve_funds sender amount =
    if ltb_ℤ sender.balance amount
    then pure TransactionStatus.failed
    else (do assign_balance sender (sender.balance -ℤ amount); pure TransactionStatus.pending)

unfoldable pub execute_payment : ℕ → ℕ → ℤ → Option (List ℕ) → ℕ → ℕ → Action Transaction
unfolding reserve_funds
execute_payment sender_account_id recipient_account_id amount description key_id new_id = do
  sender ← select_account sender_account_id >>= scalar_one
  status ← reserve_funds sender amount
  now ← gets (λ s. s.now)
  let transaction =
      payment_row new_id sender_account_id recipient_account_id amount description key_id status now
  register (insert_transaction transaction)
  commit
  pure transaction
