-- ===== src/Ledger.antt =====
-- The money in the bank: what stands on the accounts, and what pending payments hold back between
-- the sender and the recipient (README.md, "Two-phase payment flow").
pub mod Flow
pub mod Sound
pub mod Moves
pub mod Composing
pub mod Bounds
pub mod Settlement
use banking_payments_api.Prelude.{if◌then◌else◌}
use banking_payments_api.Prelude.Int.{ℤ, pos, ◌+ℤ◌}
use banking_payments_api.Prelude.Lists.{total}
use banking_payments_api.Store.Models.{Database, Account, Transaction, is_pending}

abbrev pub balance_of : Account → ℤ
balance_of a = a.balance

-- what a transaction reserves
unfoldable pub held_by : Transaction → ℤ
held_by t = if is_pending t.status then t.amount else pos 0

abbrev pub balances : Database → ℤ
balances db = total balance_of db.accounts

abbrev pub reserved : Database → ℤ
reserved db = total held_by db.transactions

unfoldable pub funds : Database → ℤ
funds db = balances db +ℤ reserved db
