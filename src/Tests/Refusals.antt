-- ===== src/Tests/Refusals.antt =====
-- The refusals of the confirmation services at the small bank.
use banking_payments_api.Prelude.{ℕ, ◌≡◌, refl, ap, arith, Option, none, some}
use banking_payments_api.Prelude.Int.{ℤ, pos_part}
use banking_payments_api.Store.Decimal.{cents}
use banking_payments_api.Store.Errors.{ok}
use banking_payments_api.Webhooks.{handle_webhook_event}
use banking_payments_api.Webhooks.Refused.{
  Complaint, mismatch, noted, succeeded_refused, failed_refused,
}
use banking_payments_api.Tests.Bank.{bank, session, other, sent, event, texts}

abbrev whole : Option ℤ → ℕ
whole none = 0
whole (some c) = pos_part c

another_amount :
    Complaint texts 30 other bank.transactions
      "Amount mismatch: transaction has 25.00, webhook sent 24.5"
unfolding cents
another_amount = mismatch sent refl refl (λ e. let n = ap whole e in omega arith) refl

succeeded_refused_example :
    handle_webhook_event texts 40 "payment.succeeded" 30 other 31 session
    ≡ (ok tt, noted 40 "Amount mismatch: transaction has 25.00, webhook sent 24.5" session)
succeeded_refused_example =
    succeeded_refused texts 40 30 other 31 session event
      "Amount mismatch: transaction has 25.00, webhook sent 24.5" another_amount refl

failed_refused_example :
    handle_webhook_event texts 40 "payment.failed" 30 other 31 session
    ≡ (ok tt, noted 40 "Unexpected internal error" session)
failed_refused_example =
    failed_refused texts 40 30 other 31 session event
      "Amount mismatch: transaction has 25.00, webhook sent 24.5" another_amount refl
