-- ===== src/Interleaving/Programs.antt =====
-- The handlers of app/routers/transactions.py and app/routers/webhooks.py and the job of
-- app/scheduler.py, cut into segments where other requests may commit.
use Prim.Native.String.{String}
use text.Mathlib.Text.{◌==◌ as str_eq}
use banking_payments_api.Prelude.{
  ℕ, ◌+◌, ◌-◌, ◌*◌, Bool, true, false, Option, none, some, List, [], ◌∷◌, map, if◌then◌else◌,
}
use banking_payments_api.Prelude.Int.{ℤ}
use banking_payments_api.Prelude.Lists.{select}
use banking_payments_api.Store.Models.{Account, User, Transaction, IdempotencyKey, WebhookEvent}
use banking_payments_api.Store.Errors.{Exc, Outcome, ok, raise, http_exception}
use banking_payments_api.Store.Session.{Session, Action, pure, throw, ◌>>◌, rollback}
use banking_payments_api.Schemas.{
  DepositCreate, PaymentCreate, TransactionOut, WebhookPaymentConfirmation, validate_payment,
  transaction_out,
}
use banking_payments_api.Idempotency.{
  compute_request_hash, get_existing_idempotency_key, reserve_idempotency_key,
  finalize_idempotency_key,
}
use banking_payments_api.Dependencies.{get_current_account}
use banking_payments_api.Payments.{execute_payment, get_account_by_number}
use banking_payments_api.Webhooks.{
  error_text, reserve_webhook_event, mark_webhook_processed, record_webhook_error, confirm,
  on_error,
}
use banking_payments_api.Cleanup.{
  pending_transaction_timeout_hours, is_stale, cleanup_expired_idempotency_keys,
  cleanup_old_webhook_events, expire_one,
}
use banking_payments_api.Routers.Transactions.{Encodings, payments_endpoint, create_deposit, replay}
use banking_payments_api.Routers.Confirmation.{Gateway, validate_body, verify_signature}
use banking_payments_api.Interleaving.{Program, last, next}

-- `create_deposit`
unfoldable pub deposit : DepositCreate → User → ℕ → Program TransactionOut
deposit payload current_user new_id =
    next (get_current_account current_user)
      (λ account. last (create_deposit payload account new_id))

module _ (enc : Encodings) where
  -- behind the reservation of the key
  unfoldable pub paid :
      Account
      → ℕ
      → ℤ
      → Option (List ℕ)
      → String
      → String
      → ℕ
      → Option IdempotencyKey
      → Program TransactionOut
  paid account recipient_account_id amount description key request_hash new_id none =
      next (get_existing_idempotency_key account.user_id key payments_endpoint)
        (λ existing. last (replay enc existing request_hash))
  paid account recipient_account_id amount description key request_hash new_id (some entry) =
      next (execute_payment account.id recipient_account_id amount description entry.id new_id)
        (λ transaction.
          let response = transaction_out transaction in
          last (do finalize_idempotency_key entry.id 201 (enc.dump_json response); pure response))

  unfoldable pub paid_to :
      PaymentCreate → ℤ → Account → String → ℕ → ℕ → Option Account → Program TransactionOut
  paid_to payload amount account key key_id new_id none =
      last (throw (http_exception 404 "Contul destinatar nu există"))
  paid_to payload amount account key key_id new_id (some recipient) =
      let request_hash = compute_request_hash enc.dumps enc.sha256 payload in
      next (reserve_idempotency_key account.user_id key payments_endpoint request_hash key_id)
        (paid account recipient.id amount payload.description key request_hash new_id)

  unfoldable pub paid_validated :
      PaymentCreate → Account → String → ℕ → ℕ → Option ℤ → Program TransactionOut
  paid_validated payload account key key_id new_id none =
      last (throw (http_exception 422 "Unprocessable Entity"))
  paid_validated payload account key key_id new_id (some amount) =
      if str_eq payload.recipient_account_number account.account_number
      then last (throw (http_exception 400 "Nu poți face o plată către propriul cont"))
      else next (get_account_by_number payload.recipient_account_number)
          (paid_to payload amount account key key_id new_id)

  -- `create_payment`
  unfoldable pub payment : PaymentCreate → User → String → ℕ → ℕ → Program TransactionOut
  payment payload current_user key key_id new_id =
      next (get_current_account current_user)
        (λ account. paid_validated payload account key key_id new_id (validate_payment payload))

-- The settling of `handle_webhook_event` with its `except`: what was raised, behind the rollback.
unfoldable pub attempt : Outcome (Unit {0}) × Session → Outcome (Option Exc) × Session
attempt (ok _, s) = (ok none, s)
attempt (raise e, s) = (rollback >> pure (some e)) s

module _ {Bytes : Type 0} (g : Gateway Bytes) where
  -- the end of `handle_webhook_event`: the event is marked, or the complaint is recorded
  unfoldable pub concluded : ℕ → Option Exc → Action (Unit {0})
  concluded entry_id none s = on_error g.texts entry_id (mark_webhook_processed entry_id s)
  concluded entry_id (some e) s = record_webhook_error entry_id (error_text g.texts e) s

  unfoldable pub answered : WebhookPaymentConfirmation → ℕ → Option WebhookEvent → Program String
  answered payload new_id none = last (pure "duplicate event, ignored")
  answered payload new_id (some entry) =
      next
        (λ s. attempt (confirm payload.event_type payload.transaction_id payload.amount new_id s))
        (λ failure. last (do concluded entry.id failure; pure "accepted, processing"))

  unfoldable pub accepted : Bytes → ℕ → ℕ → Option WebhookPaymentConfirmation → Program String
  accepted raw_body event_row_id new_id none = last (throw (http_exception 422 "Invalid payload"))
  accepted raw_body event_row_id new_id (some payload) =
      next
        (reserve_webhook_event payload.event_id payload.event_type (g.decode raw_body) event_row_id)
        (answered payload new_id)

  unfoldable pub signed : Bytes → ℕ → ℕ → Outcome Bool → Program String
  signed raw_body event_row_id new_id (raise e) = last (throw e)
  signed raw_body event_row_id new_id (ok false) =
      last (throw (http_exception 401 "Invalid webhook signature"))
  signed raw_body event_row_id new_id (ok true) =
      accepted raw_body event_row_id new_id (validate_body g raw_body)

  -- `payment_confirmation` with its background task
  unfoldable pub delivery : Bytes → String → String → ℕ → ℕ → Program String
  delivery raw_body x_webhook_signature secret event_row_id new_id =
      signed raw_body event_row_id new_id (verify_signature g raw_body x_webhook_signature secret)

-- the query of `expire_stale_pending_transactions`
unfoldable pub stale_ids : Action (List ℕ)
stale_ids s =
    let cutoff = s.now - pending_transaction_timeout_hours * 3600 in
    (ok (map (λ (t : Transaction). t.id) (select (is_stale cutoff) s.store.transactions)), s)

unfoldable pub expiring : List ℕ → ℕ → Program ℕ
expiring [] expired_count = last (pure expired_count)
expiring (k ∷ ks) expired_count = next (expire_one k) (λ n. expiring ks (expired_count + n))

-- `run_cleanup_job`
unfoldable pub cleanup : Program ℕ
cleanup = next cleanup_expired_idempotency_keys (λ deleted_keys.
    next cleanup_old_webhook_events (λ deleted_events. next stale_ids (λ ks. expiring ks 0)))
