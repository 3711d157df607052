-- ===== src/Tests/Book.antt =====
-- The services and the steps of the bank against the book, at the small bank.
use banking_payments_api.Prelude.{◌≡◌, refl, none, some}
use banking_payments_api.Prelude.Int.{pos}
use banking_payments_api.Store.Tables.{find}
use banking_payments_api.Store.Models.{Transaction, transaction_id}
use banking_payments_api.Store.Session.Loading.{IsClean, open_session-IsClean}
use banking_payments_api.Payments.{execute_payment}
use banking_payments_api.Webhooks.{process_payment_succeeded, process_payment_failed}
use banking_payments_api.Cleanup.{expire_one, run_cleanup_job}
use banking_payments_api.Book.{Command}
use banking_payments_api.Book.Services.{Implements, execute_payment-Implements}
use banking_payments_api.Book.Settling.{
  process_payment_succeeded-Implements, process_payment_failed-Implements, expire_one-Implements,
}
use banking_payments_api.Book.Following.{Follows}
use banking_payments_api.Book.Expiring.{
  expires_overdue, run_cleanup_job-Follows, run_cleanup_job-spares,
}
use banking_payments_api.Tests.Bank.{bank, session, exact, sent}

session-IsClean : IsClean session
session-IsClean = open_session-IsClean 300 bank

execute_payment-Implements_example :
    Implements
      (Command.pay 11 31 12 (pos 2500))
      bank
      (execute_payment 11 12 (pos 2500) none 20 31 session)
execute_payment-Implements_example =
    execute_payment-Implements 11 12 (pos 2500) none 20 31 session session-IsClean

process_payment_succeeded-Implements_example :
    Implements (Command.confirm 30 31) bank (process_payment_succeeded 30 exact 31 session)
process_payment_succeeded-Implements_example =
    process_payment_succeeded-Implements 30 31 exact session session-IsClean

process_payment_failed-Implements_example :
    Implements (Command.cancel 30) bank (process_payment_failed 30 exact session)
process_payment_failed-Implements_example =
    process_payment_failed-Implements 30 exact session session-IsClean

expire_one-Implements_example : Implements (Command.expire 30) bank (expire_one 30 session)
expire_one-Implements_example = expire_one-Implements 30 session session-IsClean

run_cleanup_job-Follows_example :
    Follows (expires_overdue 90000 bank.transactions) bank (run_cleanup_job 90000 bank)
run_cleanup_job-Follows_example = run_cleanup_job-Follows 90000 bank

run_cleanup_job-spares_example :
    (t' : Transaction) × (find 30 (run_cleanup_job 400 bank).transactions ≡ some t')
    × (t'.account_id ≡ sent.account_id)
    × (t'.related_account_id ≡ sent.related_account_id)
    × (t'.amount ≡ sent.amount)
    × (t'.status ≡ sent.status)
run_cleanup_job-spares_example = run_cleanup_job-spares 400 30 bank sent (tt, tt) refl refl
