-- ===== src/Tests/Steps.antt =====
-- Ana deposits 25.00, pays them to Bob, and the cleanup job runs the next day.
use banking_payments_api.Store.Schema.{with_balance, apply, flush, transaction_error}
use banking_payments_api.Store.Decimal.{cents, fits_numeric}
use banking_payments_api.Dependencies.{get_current_account}
use banking_payments_api.Prelude.{◌≡◌, refl, none, some, true, arith}
use banking_payments_api.Prelude.Int.{ℤ, pos, ◌+ℤ◌, ◌≤ℤ◌}
use banking_payments_api.Store.Models.{Database}
use banking_payments_api.Store.Errors.{ok}
use banking_payments_api.Store.Session.{
  Session, open_session, assign_balance, commit, select_account, select_one_account,
}
use banking_payments_api.Ledger.{funds}
use banking_payments_api.Ledger.Sound.{IsSound}
use banking_payments_api.Schemas.{transaction_out, validate_deposit, valid_amount}
use banking_payments_api.Payments.{deposit_row, execute_deposit}
use banking_payments_api.Cleanup.{run_cleanup_job}
use banking_payments_api.Routers.Transactions.{deposit_request, payment_request, create_deposit}
use banking_payments_api.Bank.Bounds.{Steps-bounds}
use banking_payments_api.Bank.{Steps, stop, step, deposit, payment, cleanup, Steps-funds}
use banking_payments_api.Tests.Bank.{
  account, ana, bank, session, deposit_of_25, payment_to_bob, encodings, gateway,
}
use banking_payments_api.Tests.Auth.{security}

abbrev richer : Session
richer = (deposit_request deposit_of_25 ana 31 session).1

abbrev pub paid : Database
paid =
    (payment_request encodings payment_to_bob ana "k2" 21 32
      (open_session 400 richer.store)).1.store

deposited :
    deposit_request deposit_of_25 ana 31 session
    ≡ (ok (transaction_out (deposit_row 31 11 (pos 2500) none 300)), richer)
unfolding deposit_request get_current_account select_one_account select_account create_deposit
    validate_deposit valid_amount cents execute_deposit assign_balance commit flush apply
    fits_numeric ◌+ℤ◌ transaction_error
deposited = refl

validated : validate_deposit deposit_of_25 ≡ some (pos 2500)
unfolding validate_deposit valid_amount cents
validated = refl

pub a_day :
    Steps encodings gateway security bank
      (pos 0 +ℤ pos 2500 +ℤ pos 0 +ℤ pos 0)
      (run_cleanup_job 90000 paid)
a_day =
    step
      (step
        (step stop (
          deposit deposit_of_25 (pos 2500) ana 31 300
            (transaction_out (deposit_row 31 11 (pos 2500) none 300)) richer validated deposited))
        (payment payment_to_bob ana "k2" 21 32 400))
      (cleanup 90000)

Steps-funds_example :
    (funds (run_cleanup_job 90000 paid) ≡ funds bank +ℤ (pos 0 +ℤ pos 2500 +ℤ pos 0 +ℤ pos 0))
    × (IsSound bank → IsSound (run_cleanup_job 90000 paid))
Steps-funds_example = Steps-funds encodings gateway security a_day

bank-IsSound : IsSound bank
bank-IsSound = record { solvent = ground arith; positive = ground arith }

abbrev received : ℤ
received = pos 0 +ℤ pos 2500

a_morning : Steps encodings gateway security bank received richer.store
a_morning = step stop (
    deposit deposit_of_25 (pos 2500) ana 31 300
      (transaction_out (deposit_row 31 11 (pos 2500) none 300)) richer validated deposited)

Steps-bounds_example :
    (pos 0 ≤ℤ pos 10_000)
    × (pos 10_000 ≤ℤ funds bank +ℤ received)
    × (fits_numeric (funds bank +ℤ received) ≡ true → fits_numeric (pos 10_000) ≡ true)
unfolding deposit_request get_current_account select_one_account select_account create_deposit
    validate_deposit valid_amount cents execute_deposit assign_balance commit flush apply
    fits_numeric ◌+ℤ◌ transaction_error
Steps-bounds_example =
    Steps-bounds encodings gateway security a_morning bank-IsSound 11
      (with_balance 300 (pos 10_000) (account 11 1 "RO11" (pos 7500))) refl
