-- ===== src/Tests/Overlap.antt =====
-- Ana deposits twice at the same time.
use banking_payments_api.Store.Decimal.{fits_numeric}
use banking_payments_api.Store.Schema.{apply, flush, transaction_error}
use banking_payments_api.Prelude.{◌≡◌, refl, none, arith}
use banking_payments_api.Prelude.Int.{pos, ◌+ℤ◌}
use banking_payments_api.Store.Errors.{ok}
use banking_payments_api.Store.Session.{
  Session, assign_balance, commit, select_account, select_one_account,
}
use banking_payments_api.Store.Session.Loading.{IsClean, open_session-IsClean}
use banking_payments_api.Ledger.{funds}
use banking_payments_api.Dependencies.{get_current_account}
use banking_payments_api.Routers.Transactions.Queries.{get_current_account-Reads}
use banking_payments_api.Payments.{deposit_row, execute_deposit}
use banking_payments_api.Payments.Overlap.{overlapping_deposits_lose}
use banking_payments_api.Tests.Bank.{ana, bank, session, ana_account}

-- the session of the first request, which has loaded Ana's account
abbrev first : Session
first = (get_current_account ana session).1

first-IsClean : IsClean first
first-IsClean =
    let (_, clean) = get_current_account-Reads ana session (open_session-IsClean 300 bank) in clean

-- the second request, which ends before the first goes on
abbrev second : Session
second = (execute_deposit 11 (pos 1000) none 32 session).1

abbrev last : Session
last = (execute_deposit 11 (pos 2500) none 31 (record first { store = second.store })).1

second_done :
    execute_deposit 11 (pos 1000) none 32 session
    ≡ (ok (deposit_row 32 11 (pos 1000) none 300), second)
unfolding execute_deposit select_account assign_balance commit flush apply fits_numeric ◌+ℤ◌
    transaction_error
second_done = refl

first_done :
    execute_deposit 11 (pos 2500) none 31 (record first { store = second.store })
    ≡ (ok (deposit_row 31 11 (pos 2500) none 300), last)
unfolding execute_deposit select_account assign_balance commit flush apply fits_numeric ◌+ℤ◌
    transaction_error get_current_account select_one_account
first_done = refl

overlapping_deposits_lose_example :
    (funds second.store ≡ funds first.store +ℤ pos 1000)
    × (funds last.store ≡ funds first.store +ℤ pos 2500)
unfolding get_current_account select_one_account select_account
overlapping_deposits_lose_example =
    overlapping_deposits_lose 11 (pos 2500) (pos 1000) none none 31 32 first last session second
      ana_account (deposit_row 31 11 (pos 2500) none 300) (deposit_row 32 11 (pos 1000) none 300)
      (omega arith) first-IsClean refl (open_session-IsClean 300 bank) refl second_done first_done
