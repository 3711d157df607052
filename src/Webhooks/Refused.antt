-- ===== src/Webhooks/Refused.antt =====
-- Events that the confirmation services refuse: an unknown transaction, a settled one, another amount.
use Prim.Native.String.{String, ◌++◌}
use banking_payments_api.Prelude.{
  ℕ, ◌≡◌, ◌≢◌, sym, ap, ◌∙◌, none, some, List, [], true, false, arith, inl, inr, Option-cases,
  Bool-cases,
}
use banking_payments_api.Prelude.Int.{eqb_ℤ, eqb_ℤ→eq}
use banking_payments_api.Store.Tables.{find, update}
use banking_payments_api.Store.Models.{
  Transaction, WebhookEvent, transaction_id, webhook_event_id, is_pending,
}
use banking_payments_api.Store.Decimal.{Decimal, cents}
use banking_payments_api.Store.Errors.{
  Exc, ok, raise, type_error, transaction_not_found, transaction_already_processed, amount_mismatch,
}
use banking_payments_api.Store.Schema.{apply, flush, with_error}
use banking_payments_api.Store.Session.{Session, commit, rollback, ◌>>◌, >>=-of_raise}
use banking_payments_api.Webhooks.{
  Texts, Refusals, checked, load_pending, succeeded_refusals, failed_refusals, error_text, confirm,
  on_error, record_webhook_error, mark_webhook_processed, process_payment_succeeded,
  process_payment_failed, handle_webhook_event,
}

-- What is wrong with a confirmation, and the message that says so.
pub data Complaint (str : Texts) (k : ℕ) (amount : Decimal) (ts : List Transaction)
    (message : String) : Type 0 where
  unknown :
      find k ts ≡ none
      → message ≡ "Transaction " ++ str.of_id k ++ " not found"
      → Complaint str k amount ts message
  settled :
      (t : Transaction)
      → find k ts ≡ some t
      → is_pending t.status ≡ false
      → message ≡ "Transaction " ++ str.of_id k ++ " was already processed"
      → Complaint str k amount ts message
  mismatch :
      (t : Transaction)
      → find k ts ≡ some t
      → is_pending t.status ≡ true
      → cents amount ≢ some t.amount
      → message
        ≡ "Amount mismatch: transaction has "
          ++ str.of_cents t.amount
          ++ ", webhook sent "
          ++ str.of_decimal amount
      → Complaint str k amount ts message

mismatched :
    (refuse : Refusals) (k : ℕ) (amount : Decimal) (t : Transaction)
    → is_pending t.status ≡ true
    → cents amount ≢ some t.amount
    → checked refuse k amount (some t) ≡ raise (refuse.mismatch t.amount amount)
unfolding checked
mismatched refuse k amount t waiting other = elim (Option-cases (cents amount)) [
  | inl fraction ↦ ground arith
  | inr (c, e) ↦ elim (Bool-cases (eqb_ℤ t.amount c)) [
    | inl same ↦ absurd (other (e ∙ ap some (sym (eqb_ℤ→eq t.amount c same))))
    | inr differ ↦ ground arith
  ]
]

-- The checks raise what the complaint is about.
Complaint-raises :
    (str : Texts) (k : ℕ) (amount : Decimal) (ts : List Transaction) (message : String)
    → Complaint str k amount ts message
    → (x : Exc) × (checked succeeded_refusals k amount (find k ts) ≡ raise x)
      × (error_text str x ≡ message)
unfolding error_text
Complaint-raises str k amount ts message (unknown absent m) =
    (transaction_not_found k, unfold checked in ground arith, sym m)
Complaint-raises str k amount ts message (settled t found done m) =
    (transaction_already_processed k, unfold checked in ground arith, sym m)
Complaint-raises str k amount ts message (mismatch t found waiting other m) = (
  amount_mismatch t.amount amount,
  rw found (mismatched succeeded_refusals k amount t waiting other),
  sym m,
)

-- the failure's checks raise a `TypeError` there
failure_raises :
    (str : Texts) (k : ℕ) (amount : Decimal) (ts : List Transaction) (message : String)
    → Complaint str k amount ts message
    → checked failed_refusals k amount (find k ts) ≡ raise type_error
unfolding checked
failure_raises str k amount ts message (unknown absent m) = ground arith
failure_raises str k amount ts message (settled t found done m) = ground arith
failure_raises str k amount ts message (mismatch t found waiting other m) =
    rw found (mismatched failed_refusals k amount t waiting other)

-- A session whose changes are dropped and whose event carries the message.
unfoldable pub noted : ℕ → String → Session → Session
noted entry message s = record s {
  store = record s.store {
    webhook_events = update entry (with_error message) s.store.webhook_events;
  };
  identity_map = [];
  unflushed = [];
}

error_recorded :
    (entry : ℕ) (message : String) (s : Session) (ev : WebhookEvent)
    → find entry s.store.webhook_events ≡ some ev
    → (rollback >> record_webhook_error entry message) s ≡ (ok tt, noted entry message s)
unfolding record_webhook_error rollback commit flush apply noted
error_recorded entry message s ev found = ground arith

refused :
    (str : Texts) (entry : ℕ) (event_type : String) (k : ℕ) (amount : Decimal) (n : ℕ) (s : Session)
    (x : Exc) (ev : WebhookEvent)
    → find entry s.store.webhook_events ≡ some ev
    → confirm event_type k amount n s ≡ (raise x, s)
    → handle_webhook_event str entry event_type k amount n s
      ≡ (ok tt, noted entry (error_text str x) s)
unfolding handle_webhook_event on_error
refused str entry event_type k amount n s x ev found raises =
    ap (on_error str entry)
      (>>=-of_raise (confirm event_type k amount n) (λ _. mark_webhook_processed entry) raises)
    ∙ error_recorded entry (error_text str x) s ev found

module _ (str : Texts) (entry k : ℕ) (amount : Decimal) (n : ℕ) (s : Session)
    (ev : WebhookEvent) where
  -- A success that names an unknown transaction, a settled one or another amount than the
  -- transaction's changes nothing but the stored event, on which the complaint is recorded.
  pub succeeded_refused :
      (message : String)
      → Complaint str k amount s.store.transactions message
      → find entry s.store.webhook_events ≡ some ev
      → handle_webhook_event str entry "payment.succeeded" k amount n s
        ≡ (ok tt, noted entry message s)
  unfolding confirm process_payment_succeeded load_pending
  succeeded_refused message c found =
      let (x, raises, text) = Complaint-raises str k amount s.store.transactions message c in
      refused str entry "payment.succeeded" k amount n s x ev found (ground arith)
      ∙ ap (λ m. (ok tt, noted entry m s)) text

  -- A failure report with any such complaint is recorded as an unexpected internal error, whatever
  -- the complaint says.
  pub failed_refused :
      (message : String)
      → Complaint str k amount s.store.transactions message
      → find entry s.store.webhook_events ≡ some ev
      → handle_webhook_event str entry "payment.failed" k amount n s
        ≡ (ok tt, noted entry "Unexpected internal error" s)
  unfolding confirm process_payment_failed load_pending error_text
  failed_refused message c found =
      let raises = failure_raises str k amount s.store.transactions message c in
      refused str entry "payment.failed" k amount n s type_error ev found (ground arith)
