-- ===== src/Tests/Rows.antt =====
-- The rows that deposits, payments, confirmations and the cleanup leave at the small bank.
use banking_payments_api.Store.Decimal.{cents, fits_numeric}
use banking_payments_api.Prelude.{◌≡◌, refl, none, some, List, [], ◌∷◌, ◌-◌, ◌*◌}
use banking_payments_api.Prelude.Int.{ℤ, pos, ◌+ℤ◌, ◌-ℤ◌}
use banking_payments_api.Prelude.Lists.{select}
use banking_payments_api.Store.Errors.{ok}
use banking_payments_api.Store.Models.{
  Account, Transaction, WebhookEvent, pending, completed, failed,
}
use banking_payments_api.Store.Schema.{
  is_live, is_retained, with_balance, with_status, transaction_error,
}
use banking_payments_api.Store.Session.{Session}
use banking_payments_api.Store.Session.Loading.{open_session-IsClean}
use banking_payments_api.Payments.{deposit_row, payment_row, execute_deposit, execute_payment}
use banking_payments_api.Payments.Rows.{
  execute_deposit_credits, execute_payment_reserves, execute_payment_declines,
}
use banking_payments_api.Webhooks.{
  transfer_row, process_payment_succeeded, process_payment_failed, handle_webhook_event,
}
use banking_payments_api.Webhooks.Handling.{with_events}
use banking_payments_api.Webhooks.Settled.{
  process_payment_failed_refunds, process_payment_succeeded_transfers, settled_once,
}
use banking_payments_api.Cleanup.{expired_description, expire_one, run_cleanup_job}
use banking_payments_api.Cleanup.Kept.{expire_one_refunds, run_cleanup_job_keeps}
use banking_payments_api.Tests.Bank.{bank, session, exact, sent, texts, ana_account, bob_account}

abbrev leaving : List Account → List Transaction → List Account → Session
leaving accounts transactions loaded = record session {
  store = record bank { accounts = accounts; transactions = transactions };
  identity_map = loaded;
  unflushed = [];
}

abbrev ana_with : ℤ → List Account
ana_with balance = with_balance 300 balance ana_account ∷ bob_account ∷ []

execute_deposit_credits_example :
    (loaded : List Account) × (execute_deposit 11 (pos 2500) none 31 session ≡ (
      ok (deposit_row 31 11 (pos 2500) none 300),
      leaving (ana_with (pos 10_000)) (deposit_row 31 11 (pos 2500) none 300 ∷ sent ∷ []) loaded,
    ))
unfolding fits_numeric ◌+ℤ◌ transaction_error
execute_deposit_credits_example =
    execute_deposit_credits 11 (pos 2500) none 31 session ana_account
      (open_session-IsClean 300 bank) refl refl refl

execute_payment_reserves_example :
    (loaded : List Account) × (execute_payment 11 12 (pos 2500) none 20 31 session ≡ (
      ok (payment_row 31 11 12 (pos 2500) none 20 pending 300),
      leaving
          (ana_with (pos 5000))
          (payment_row 31 11 12 (pos 2500) none 20 pending 300 ∷ sent ∷ [])
          loaded,
    ))
unfolding fits_numeric ◌-ℤ◌ transaction_error
execute_payment_reserves_example =
    execute_payment_reserves 11 12 (pos 2500) none 20 31 session ana_account
      (open_session-IsClean 300 bank) refl refl refl refl

execute_payment_declines_example :
    (loaded : List Account) × (execute_payment 11 12 (pos 7501) none 20 31 session ≡ (
      ok (payment_row 31 11 12 (pos 7501) none 20 failed 300),
      leaving bank.accounts (payment_row 31 11 12 (pos 7501) none 20 failed 300 ∷ sent ∷ []) loaded,
    ))
unfolding transaction_error fits_numeric
execute_payment_declines_example =
    execute_payment_declines 11 12 (pos 7501) none 20 31 session ana_account
      (open_session-IsClean 300 bank) refl refl refl

process_payment_failed_refunds_example :
    (loaded : List Account) × (process_payment_failed 30 exact session
      ≡ (ok tt, leaving (ana_with (pos 10_000)) (with_status 300 failed none sent ∷ []) loaded))
unfolding cents fits_numeric ◌+ℤ◌
process_payment_failed_refunds_example =
    process_payment_failed_refunds 30 exact session sent ana_account (open_session-IsClean 300 bank)
      refl refl refl refl refl refl

process_payment_succeeded_transfers_example :
    (loaded : List Account) × (process_payment_succeeded 30 exact 31 session ≡ (
      ok tt,
      leaving
          (ana_account ∷ with_balance 300 (pos 2800) bob_account ∷ [])
          (transfer_row 31 12 11 (pos 2500) none 300 ∷ with_status 300 completed none sent ∷ [])
          loaded,
    ))
unfolding cents fits_numeric ◌+ℤ◌
process_payment_succeeded_transfers_example =
    process_payment_succeeded_transfers 30 31 12 exact session sent bob_account ana_account
      (open_session-IsClean 300 bank) refl refl refl refl refl refl refl refl refl refl

abbrev settled : Session
settled = leaving bank.accounts (with_status 300 completed none sent ∷ []) []

settled_once_example :
    (events : List WebhookEvent) × (handle_webhook_event texts 40 "payment.failed" 30 exact 31
        settled
      ≡ (ok tt, with_events settled events))
settled_once_example =
    settled_once texts 40 "payment.failed" 30 exact 31 settled (with_status 300 completed none sent)
      refl refl

expire_one_refunds_example :
    (loaded : List Account) × (expire_one 30 session ≡ (
      ok 1,
      leaving
          (ana_with (pos 10_000))
          (with_status 300 failed (some (expired_description none)) sent ∷ [])
          loaded,
    ))
unfolding fits_numeric ◌+ℤ◌ expired_description
expire_one_refunds_example =
    expire_one_refunds 30 session sent ana_account (open_session-IsClean 300 bank) refl refl refl
      refl refl

run_cleanup_job_keeps_example :
    ((run_cleanup_job 90000 bank).idempotency_keys ≡ select (is_live 90000) bank.idempotency_keys)
    × ((run_cleanup_job 90000 bank).webhook_events
        ≡ select (is_retained (90000 - 7 * 86400)) bank.webhook_events)
    × ((run_cleanup_job 90000 bank).users ≡ bank.users)
    × ((run_cleanup_job 90000 bank).refresh_tokens ≡ bank.refresh_tokens)
run_cleanup_job_keeps_example = run_cleanup_job_keeps 90000 bank
