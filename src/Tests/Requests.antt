-- ===== src/Tests/Requests.antt =====
-- Requests and deliveries at the small bank.
use banking_payments_api.Schemas.{validate_event_type}
use banking_payments_api.Store.Decimal.{fits_numeric}
use banking_payments_api.Payments.{execute_payment}
use banking_payments_api.Store.Schema.{apply, flush, key_error, transaction_error}
use banking_payments_api.Idempotency.{
  compute_request_hash, key_row, finalize_idempotency_key, or_none, reserve_idempotency_key,
}
use banking_payments_api.Prelude.{◌≡◌, refl, some, ◌∷◌, arith}
use banking_payments_api.Prelude.Int.{pos, ◌-ℤ◌}
use banking_payments_api.Store.Errors.{ok}
use banking_payments_api.Store.Session.{
  Session, open_session, assign_balance, commit, select_account,
}
use banking_payments_api.Store.Session.Loading.{open_session-IsClean}
use banking_payments_api.Routers.Transactions.{pay_to, pay, payments_endpoint}
use banking_payments_api.Routers.Transactions.Replay.{paid_once, request_hash}
use banking_payments_api.Routers.Confirmation.{
  payment_confirmation, is_ascii, validate_body, verify_signature,
}
use banking_payments_api.Routers.Confirmation.Delivery.{duplicate_ignored}
use banking_payments_api.Tests.Bank.{
  bank, session, payment_to_bob, encodings, response, ana_account, bob_account, confirmation,
  gateway,
}

abbrev after_payment : Session
after_payment =
    (pay_to encodings payment_to_bob (pos 2500) ana_account "k2" 21 31 (some bob_account) session).1

first_payment :
    pay_to encodings payment_to_bob (pos 2500) ana_account "k2" 21 31 (some bob_account) session
    ≡ (ok response, after_payment)
unfolding pay_to reserve_idempotency_key or_none commit flush apply key_error compute_request_hash
    pay execute_payment select_account assign_balance fits_numeric ◌-ℤ◌ transaction_error
    finalize_idempotency_key
first_payment = refl

-- another user has paid meanwhile
abbrev busy : Session
busy = open_session 400 (record after_payment.store {
  idempotency_keys =
      key_row 23 2 "k9" payments_endpoint "other" 350 ∷ after_payment.store.idempotency_keys;
})

paid_once_example :
    pay_to encodings payment_to_bob (pos 2500) ana_account "k2" 22 32 (some bob_account) busy
    ≡ (ok response, busy)
unfolding key_error request_hash compute_request_hash
paid_once_example =
    paid_once encodings payment_to_bob (pos 2500) ana_account "k2" bob_account 21 31 22 32 session
      after_payment busy response refl (omega arith) (open_session-IsClean 300 bank) refl
      first_payment refl refl

duplicate_ignored_example :
    payment_confirmation gateway "body" "sha256=body" "secret" 41 31 session
    ≡ (ok "duplicate event, ignored", session)
unfolding verify_signature is_ascii validate_body validate_event_type
duplicate_ignored_example =
    duplicate_ignored gateway "body" "sha256=body" "secret" 41 31 session confirmation refl refl
      refl refl refl refl
