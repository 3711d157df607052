-- ===== src/Webhooks.antt =====
-- app/services/webhook_processing.py. `new_id` is what `uuid.uuid4()` gives the row that the call
-- creates; the texts of ids and amounts in error messages are parameters.
pub mod Settling
pub mod Handling
pub mod Refused
pub mod Events
pub mod Settled
use Prim.Native.String.{String, ◌++◌ as str_append}
use text.Mathlib.Text.{◌==◌ as str_eq}
use banking_payments_api.Prelude.{
  ℕ, Bool, true, false, not, Option, none, some, List, if◌then◌else◌, ◌==◌,
}
use banking_payments_api.Prelude.Int.{ℤ, ◌+ℤ◌, eqb_ℤ}
use banking_payments_api.Prelude.Lists.{select}
use banking_payments_api.Store.Tables.{find}
use banking_payments_api.Store.Models.{
  Account, Transaction, TransactionType, TransactionStatus, WebhookEvent, is_pending,
  transaction_id, webhook_event_id,
}
use banking_payments_api.Store.Decimal.{Decimal, cents}
use banking_payments_api.Store.Errors.{
  Outcome, ok, raise, Exc, integrity_error, transaction_not_found, transaction_already_processed,
  amount_mismatch, type_error,
}
use banking_payments_api.Store.Schema.{
  insert_transaction, insert_event, set_status, set_processed, set_error, same_event,
}
use banking_payments_api.Store.Session.{
  Session, Action, pure, throw, gets, scalar_one, scalar_one_or_none, ◌>>=◌, ◌>>◌, register, commit,
  rollback, select_account, assign_balance,
}
use banking_payments_api.Idempotency.{or_none}

-- the row that `reserve_webhook_event` adds
abbrev pub event_row : ℕ → String → String → String → ℕ → WebhookEvent
event_row new_id event_id event_type payload now = record {
  id = new_id;
  event_id = event_id;
  event_type = event_type;
  payload = payload;
  signature_valid = true;
  processed = false;
  created_at = now;
  error_message = none;
}

unfoldable pub reserve_webhook_event : String → String → String → ℕ → Action (Option WebhookEvent)
reserve_webhook_event event_id event_type payload new_id = do
  now ← gets (λ s. s.now)
  let entry = event_row new_id event_id event_type payload now
  register (insert_event entry)
  λ s. or_none entry (commit s)

unfoldable pub get_existing_webhook_event : String → Action (Option WebhookEvent)
get_existing_webhook_event event_id = do
  rows ← gets (λ s. select (same_event event_id) s.store.webhook_events)
  scalar_one_or_none rows

-- `if event:`
unfoldable pub on_found : Option WebhookEvent → Action (Unit {0}) → Action (Unit {0})
on_found none act = pure tt
on_found (some _) act = act

unfoldable pub mark_webhook_processed : ℕ → Action (Unit {0})
unfolding on_found
mark_webhook_processed entry_id = do
  event ← gets (λ s. find entry_id s.store.webhook_events)
  on_found event (do register (set_processed entry_id); commit)

unfoldable pub record_webhook_error : ℕ → String → Action (Unit {0})
unfolding on_found
record_webhook_error entry_id error_message = do
  event ← gets (λ s. find entry_id s.store.webhook_events)
  on_found event (do register (set_error entry_id error_message); commit)

-- The exceptions that a service raises for an unknown transaction, for one that is settled, and for
-- another amount.
pub record Refusals : Type 0 where
  pub unknown : ℕ → Exc
  pub settled : ℕ → Exc
  pub mismatch : ℤ → Decimal → Exc

-- The checks at the head of both services: a pending transaction over exactly this amount, which is
-- then a whole number of cents.
unfoldable pub checked : Refusals → ℕ → Decimal → Option Transaction → Outcome (Transaction × ℤ)
checked refuse k amount none = raise (refuse.unknown k)
checked refuse k amount (some t) =
    if not (is_pending t.status) then raise (refuse.settled k) else elim (cents amount) [
      | none ↦ raise (refuse.mismatch t.amount amount)
      | some c ↦ if eqb_ℤ t.amount c then ok (t, c) else raise (refuse.mismatch t.amount amount)
    ]

unfoldable pub load_pending : Refusals → ℕ → Decimal → Action (Transaction × ℤ)
load_pending refuse k amount s = (checked refuse k amount (find k s.store.transactions), s)

abbrev pub succeeded_refusals : Refusals
succeeded_refusals = record {
  unknown = transaction_not_found;
  settled = transaction_already_processed;
  mismatch = amount_mismatch;
}

-- `process_payment_failed` calls the same exception classes without their arguments.
abbrev pub failed_refusals : Refusals
failed_refusals = record {
  unknown = λ _. type_error;
  settled = λ _. type_error;
  mismatch = λ _ _. type_error;
}

-- `select(Account).where(Account.id == id)` for a nullable id
unfoldable pub select_related : Option ℕ → Action (Option Account)
select_related none = pure none
select_related (some k) = select_account k

-- the row that `process_payment_succeeded` adds
abbrev pub transfer_row : ℕ → ℕ → ℕ → ℤ → Option (List ℕ) → ℕ → Transaction
transfer_row new_id recipient sender amount description now = record {
  id = new_id;
  account_id = recipient;
  related_account_id = some sender;
  idempotency_key_id = none;
  type = TransactionType.transfer_in;
  status = TransactionStatus.completed;
  amount = amount;
  description = description;
  created_at = now;
  updated_at = now;
}

unfoldable pub process_payment_succeeded : ℕ → Decimal → ℕ → Action (Unit {0})
unfolding select_related
process_payment_succeeded transaction_id amount new_id = do
  (transaction, received) ← load_pending succeeded_refusals transaction_id amount
  recipient ← select_related transaction.related_account_id >>= scalar_one
  assign_balance recipient (recipient.balance +ℤ received)
  now ← gets (λ s. s.now)
  register (
      insert_transaction (
        transfer_row new_id recipient.id transaction.account_id received transaction.description
          now))
  register (set_status transaction.id TransactionStatus.completed transaction.description)
  commit

unfoldable pub process_payment_failed : ℕ → Decimal → Action (Unit {0})
process_payment_failed transaction_id amount = do
  (transaction, received) ← load_pending failed_refusals transaction_id amount
  sender ← select_account transaction.account_id >>= scalar_one
  assign_balance sender (sender.balance +ℤ received)
  register (set_status transaction.id TransactionStatus.failed transaction.description)
  commit

-- the service that the event's type chooses
unfoldable pub confirm : String → ℕ → Decimal → ℕ → Action (Unit {0})
confirm event_type transaction_id amount new_id =
    if str_eq event_type "payment.succeeded"
    then process_payment_succeeded transaction_id amount new_id
    else process_payment_failed transaction_id amount

-- `str` of an id and of an amount
pub record Texts : Type 0 where
  pub of_id : ℕ → String
  pub of_cents : ℤ → String
  pub of_decimal : Decimal → String

module _ (str : Texts) where
  -- the handlers of `handle_webhook_event`: the message that is recorded
  unfoldable pub error_text : Exc → String
  error_text (transaction_not_found k) =
      str_append "Transaction " (str_append (str.of_id k) " not found")
  error_text (transaction_already_processed k) =
      str_append "Transaction " (str_append (str.of_id k) " was already processed")
  error_text (amount_mismatch expected received) =
      str_append "Amount mismatch: transaction has " (
        str_append (str.of_cents expected) (str_append ", webhook sent " (str.of_decimal received)))
  error_text _ = "Unexpected internal error"

  unfoldable pub on_error : ℕ → Outcome (Unit {0}) × Session → Outcome (Unit {0}) × Session
  on_error entry_id (ok _, s) = (ok tt, s)
  on_error entry_id (raise e, s) = (rollback >> record_webhook_error entry_id (error_text e)) s

  unfoldable pub handle_webhook_event : ℕ → String → ℕ → Decimal → ℕ → Action (Unit {0})
  unfolding on_error
  handle_webhook_event entry_id event_type transaction_id amount new_id s =
      on_error entry_id
        ((do confirm event_type transaction_id amount new_id; mark_webhook_processed entry_id) s)
