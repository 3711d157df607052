-- ===== src/Tests/Money.antt =====
-- The theorems on money at the small bank.
use banking_payments_api.Prelude.{◌≡◌}
use banking_payments_api.Store.Errors.{ok}
use banking_payments_api.Store.Session.Loading.{IsClean, open_session-IsClean}
use banking_payments_api.Ledger.{funds}
use banking_payments_api.Ledger.Sound.{IsSound}
use banking_payments_api.Webhooks.{handle_webhook_event}
use banking_payments_api.Webhooks.Handling.{handle_webhook_event-IsSafe}
use banking_payments_api.Cleanup.{run_cleanup_job}
use banking_payments_api.Cleanup.Expiry.{run_cleanup_job-IsSafe}
use banking_payments_api.Tests.Bank.{bank, session, exact, texts}

session-IsClean : IsClean session
session-IsClean = open_session-IsClean 300 bank

handle_webhook_event-IsSafe_example :
    let (r, s') = handle_webhook_event texts 40 "payment.succeeded" 30 exact 31 session in
    (r ≡ ok tt) × (funds s'.store ≡ funds bank) × (IsSound bank → IsSound s'.store) × IsClean s'
handle_webhook_event-IsSafe_example =
    handle_webhook_event-IsSafe texts 40 "payment.succeeded" 30 exact 31 session session-IsClean

run_cleanup_job-IsSafe_example :
    (funds (run_cleanup_job 90000 bank) ≡ funds bank)
    × (IsSound bank → IsSound (run_cleanup_job 90000 bank))
run_cleanup_job-IsSafe_example = run_cleanup_job-IsSafe 90000 bank
