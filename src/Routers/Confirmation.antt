-- ===== src/Routers/Confirmation.antt =====
-- app/routers/webhooks.py and app/services/webhook_signature.py. HMAC-SHA256, Pydantic's parser and
-- the decoding of the body are parameters. The background task runs after the answer.
pub mod Delivery
use Prim.Native.String.{String, ◌++◌}
use Prim.Native.Char.{code}
use text.Mathlib.Text.{◌==◌}
use banking_payments_api.Prelude.{
  ℕ, Bool, true, false, ltb, ◌&&◌, Option, none, some, if◌then◌else◌,
}
use banking_payments_api.Store.Models.{WebhookEvent}
use banking_payments_api.Store.Errors.{Outcome, ok, raise, type_error, http_exception}
use banking_payments_api.Store.Session.{Action, pure, throw, ◌>>=◌, ◌>>◌}
use banking_payments_api.Schemas.{WebhookPaymentConfirmation, validate_event_type}
use banking_payments_api.Webhooks.{Texts, reserve_webhook_event, handle_webhook_event}

-- what `payment_confirmation` takes from hmac, from Pydantic and from the request's body
pub record Gateway (Bytes : Type 0) : Type 0 where
  pub hexdigest : String → Bytes → String
  pub parse : Bytes → Option WebhookPaymentConfirmation
  pub decode : Bytes → String
  pub texts : Texts

-- a digest has ASCII characters only
unfoldable pub is_ascii : String → Bool
is_ascii String.[] = true
is_ascii (String.◌∷◌ c s) = ltb (code c) 128 && is_ascii s

module _ {Bytes : Type 0} (g : Gateway Bytes) where
  unfoldable pub generate_signature : Bytes → String → String
  generate_signature payload_bytes secret = "sha256=" ++ g.hexdigest secret payload_bytes

  -- `compare_digest` raises a `TypeError` on a text that is not ASCII
  unfoldable pub verify_signature : Bytes → String → String → Outcome Bool
  unfolding generate_signature
  verify_signature payload_bytes signature_header secret =
      if is_ascii signature_header
      then ok (generate_signature payload_bytes secret == signature_header)
      else raise type_error

  -- `model_validate_json`, with the literal event types
  unfoldable pub validate_body : Bytes → Option WebhookPaymentConfirmation
  validate_body raw_body = elim (g.parse raw_body) [
    | none ↦ none
    | some payload ↦ if validate_event_type payload.event_type then some payload else none
  ]

  -- the status that is answered; the task that was added runs then
  unfoldable pub answer : WebhookPaymentConfirmation → ℕ → Option WebhookEvent → Action String
  answer payload new_id none = pure "duplicate event, ignored"
  answer payload new_id (some entry) = do
    handle_webhook_event g.texts entry.id payload.event_type payload.transaction_id payload.amount
        new_id
    pure "accepted, processing"

  unfoldable pub accept : Bytes → ℕ → ℕ → Option WebhookPaymentConfirmation → Action String
  accept raw_body event_row_id new_id none = throw (http_exception 422 "Invalid payload")
  accept raw_body event_row_id new_id (some payload) = do
    entry ←
        reserve_webhook_event payload.event_id payload.event_type (g.decode raw_body) event_row_id
    answer payload new_id entry

  -- behind the check of the signature
  unfoldable pub when_signed : Bytes → ℕ → ℕ → Outcome Bool → Action String
  when_signed raw_body event_row_id new_id (raise e) = throw e
  when_signed raw_body event_row_id new_id (ok false) =
      throw (http_exception 401 "Invalid webhook signature")
  when_signed raw_body event_row_id new_id (ok true) =
      accept raw_body event_row_id new_id (validate_body raw_body)

  unfoldable pub payment_confirmation : Bytes → String → String → ℕ → ℕ → Action String
  unfolding answer accept when_signed
  payment_confirmation raw_body x_webhook_signature secret event_row_id new_id =
      when_signed raw_body event_row_id new_id
        (verify_signature raw_body x_webhook_signature secret)
