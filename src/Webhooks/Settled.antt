-- ===== src/Webhooks/Settled.antt =====
-- Confirmations that go through: the rows that they leave, and that a settled payment stays settled.
use Prim.Native.String.{String}
use text.Mathlib.Text.{◌==◌ as str_eq}
use banking_payments_api.Prelude.{
  ℕ, ◌≡◌, refl, ◌∙◌, Option, none, some, List, [], ◌∷◌, true, false, arith, inl, inr, Bool-cases,
  ◌==◌,
}
use banking_payments_api.Prelude.Int.{ℤ, ◌+ℤ◌, eqb_ℤ}
use banking_payments_api.Store.Tables.{find, find-id, update, find-update_self, find-update_ne}
use banking_payments_api.Store.Models.{
  Account, Transaction, Database, WebhookEvent, account_id, transaction_id, webhook_event_id,
  idempotency_key_id, is_pending, failed, completed,
}
use banking_payments_api.Store.Decimal.{Decimal, cents, fits_numeric}
use banking_payments_api.Store.Errors.{Exc, ok, raise, type_error, transaction_already_processed}
use banking_payments_api.Store.Schema.{
  set_balance, set_status, insert_transaction, with_balance, with_status, apply, flush, exists,
  fits_description, transaction_error,
}
use banking_payments_api.Store.Session.{Session}
use banking_payments_api.Store.Session.Loading.{IsClean, Loaded-balance, select-Loaded}
use banking_payments_api.Ledger.Moves.{commit_flushed}
use banking_payments_api.Webhooks.{
  Texts, Refusals, checked, load_pending, confirm, handle_webhook_event, succeeded_refusals,
  failed_refusals, transfer_row, process_payment_succeeded, process_payment_failed,
}
use banking_payments_api.Webhooks.Handling.{with_events, handled_error}
use banking_payments_api.Webhooks.Settling.{failed_staged, succeeded_staged}

eqb_refl : (c : ℤ) → eqb_ℤ c c ≡ true
eqb_refl c = ground arith

-- what the checks let through, the other way round
checked_passes :
    (refuse : Refusals) (k : ℕ) (amount : Decimal) (t : Transaction)
    → is_pending t.status ≡ true
    → cents amount ≡ some t.amount
    → checked refuse k amount (some t) ≡ ok (t, t.amount)
unfolding checked
checked_passes refuse k amount t waiting exact = ground (arith, eqb_refl t.amount)

pub flush_refund :
    (now k j : ℕ) (b : ℤ) (d : Option (List ℕ)) (db : Database) (row : Account) (t : Transaction)
    → find k db.accounts ≡ some row
    → fits_numeric b ≡ true
    → find j db.transactions ≡ some t
    → fits_description d ≡ true
    → flush now (set_balance k b ∷ set_status j failed d ∷ []) db
      ≡ ok (record db {
        accounts = update k (with_balance now b) db.accounts;
        transactions = update j (with_status now failed d) db.transactions;
      })
unfolding flush apply
flush_refund now k j b d db row t held fits there short = ground arith

-- A failed confirmation of a pending payment over exactly its amount succeeds in any clean session,
-- if the sender's account exists and its new balance and the description fit their columns. It gives
-- the amount back to the sender, marks the payment as failed, and changes nothing else in the
-- database.
pub process_payment_failed_refunds :
    (k : ℕ) (amount : Decimal) (s : Session) (t : Transaction) (sender : Account)
    → IsClean s
    → find k s.store.transactions ≡ some t
    → is_pending t.status ≡ true
    → cents amount ≡ some t.amount
    → find t.account_id s.store.accounts ≡ some sender
    → fits_numeric (sender.balance +ℤ t.amount) ≡ true
    → fits_description t.description ≡ true
    → (loaded : List Account) × (process_payment_failed k amount s ≡ (
      ok tt,
      record s {
        store = record s.store {
          accounts =
              update t.account_id
                (with_balance s.now (sender.balance +ℤ t.amount))
                s.store.accounts;
          transactions = update k (with_status s.now failed t.description) s.store.transactions;
        };
        identity_map = loaded;
        unflushed = [];
      },
    ))
process_payment_failed_refunds k amount s t sender clean there waiting exact held fits short =
    let (a, im, l) = select-Loaded t.account_id s sender held in
    let same : a.balance ≡ sender.balance =
      Loaded-balance t.account_id s sender a im clean.current l in
    let id : t.id ≡ k = find-id k t s.store.transactions there in
    let passed : checked failed_refusals k amount (find k s.store.transactions) ≡ ok (t, t.amount) =
      rw there (checked_passes failed_refusals k amount t waiting exact) in
    let staged = failed_staged k amount s t t.amount passed l clean.flushed in
    (
      update t.account_id (λ r. record r { balance = sender.balance +ℤ t.amount }) im,
      (rw (same, l.id, id) at staged)
          ∙ commit_flushed tt _ (
              flush_refund s.now t.account_id k (sender.balance +ℤ t.amount) t.description s.store
                sender t held fits there short),
    )

pub exists_found :
    (j : ℕ) (rows : List Account) (x : Account) → find j rows ≡ some x → exists j rows ≡ true
exists_found j rows x there = ground arith

pub exists-update :
    (k j : ℕ) (b : ℤ) (now : ℕ) (rows : List Account) (row other : Account)
    → find k rows ≡ some row
    → find j rows ≡ some other
    → exists j (update k (with_balance now b) rows) ≡ true
exists-update k j b now rows row other held there = elim (Bool-cases (j == k)) [
  | inl same ↦
      let p : j ≡ k = ground arith in
      rw p (
        exists_found k (update k (with_balance now b) rows) (with_balance now b row)
          (find-update_self k (with_balance now b) (λ x. refl) row rows held))
  | inr distinct ↦
      exists_found j (update k (with_balance now b) rows) other
        (find-update_ne k (with_balance now b) (λ x. refl) j rows (ground arith) ∙ there)
]

-- the row of the transfer is accepted behind the new balance
transfer_accepted :
    (n k j : ℕ) (b c : ℤ) (d : Option (List ℕ)) (now : ℕ) (db : Database) (row sender : Account)
    → find n db.transactions ≡ none
    → find k db.accounts ≡ some row
    → find j db.accounts ≡ some sender
    → fits_numeric c ≡ true
    → fits_description d ≡ true
    → transaction_error
        (record db { accounts = update k (with_balance now b) db.accounts })
        (transfer_row n k j c d now)
      ≡ none
unfolding transaction_error
transfer_accepted n k j b c d now db row sender fresh held there fits short = ground (
  arith,
  exists-update k k b now db.accounts row row held held,
  exists-update k j b now db.accounts row sender held there,
)

flush_transfer :
    (now k j : ℕ) (b : ℤ) (d : Option (List ℕ)) (r : Transaction) (db : Database) (row : Account)
    (t : Transaction)
    → find k db.accounts ≡ some row
    → fits_numeric b ≡ true
    → transaction_error (record db { accounts = update k (with_balance now b) db.accounts }) r
      ≡ none
    → find r.id db.transactions ≡ none
    → find j db.transactions ≡ some t
    → fits_description d ≡ true
    → flush now (set_balance k b ∷ insert_transaction r ∷ set_status j completed d ∷ []) db
      ≡ ok (record db {
        accounts = update k (with_balance now b) db.accounts;
        transactions = r ∷ update j (with_status now completed d) db.transactions;
      })
unfolding flush apply
flush_transfer now k j b d r db row t held fits accepted fresh there short =
    elim (Bool-cases (r.id == j)) [
      | inl same ↦ let p : r.id ≡ j = ground arith in let q = rw p at fresh in cc
      | inr distinct ↦ ground arith
    ]

-- A success for a pending payment over exactly its amount goes through in any clean session, if the
-- recipient's and the sender's accounts exist, the id of the new row is new, and the recipient's new
-- balance, the amount and the description fit their columns. It adds the amount to the recipient,
-- records the transfer, marks the payment as completed, and changes nothing else in the database.
pub process_payment_succeeded_transfers :
    (k n q : ℕ) (amount : Decimal) (s : Session) (t : Transaction) (recipient sender : Account)
    → IsClean s
    → find k s.store.transactions ≡ some t
    → is_pending t.status ≡ true
    → cents amount ≡ some t.amount
    → t.related_account_id ≡ some q
    → find q s.store.accounts ≡ some recipient
    → find t.account_id s.store.accounts ≡ some sender
    → find n s.store.transactions ≡ none
    → fits_numeric (recipient.balance +ℤ t.amount) ≡ true
    → fits_numeric t.amount ≡ true
    → fits_description t.description ≡ true
    → (loaded : List Account) × (process_payment_succeeded k amount n s ≡ (
      ok tt,
      record s {
        store = record s.store {
          accounts = update q (with_balance s.now (recipient.balance +ℤ t.amount)) s.store.accounts;
          transactions =
              transfer_row n q t.account_id t.amount t.description s.now
              ∷ update k (with_status s.now completed t.description) s.store.transactions;
        };
        identity_map = loaded;
        unflushed = [];
      },
    ))
process_payment_succeeded_transfers k n q amount s t recipient sender clean there waiting exact
      related held owned fresh fits small short =
    let (a, im, l) = select-Loaded q s recipient held in
    let same : a.balance ≡ recipient.balance = Loaded-balance q s recipient a im clean.current l in
    let id : t.id ≡ k = find-id k t s.store.transactions there in
    let passed : checked succeeded_refusals k amount (find k s.store.transactions)
        ≡ ok (t, t.amount) =
      rw there (checked_passes succeeded_refusals k amount t waiting exact) in
    let staged = succeeded_staged k n amount s t t.amount q passed related l clean.flushed in
    let b = recipient.balance +ℤ t.amount in
    (
      update q (λ r. record r { balance = b }) im,
      (rw (same, l.id, id) at staged)
          ∙ commit_flushed tt _ (
              flush_transfer s.now q k b t.description
                (transfer_row n q t.account_id t.amount t.description s.now) s.store recipient t
                held fits
                (transfer_accepted n q t.account_id b t.amount t.description s.now s.store recipient
                  sender fresh held owned small short)
                fresh there short),
    )

settled_raises :
    (event_type : String) (k : ℕ) (amount : Decimal) (n : ℕ) (s : Session) (t : Transaction)
    → find k s.store.transactions ≡ some t
    → is_pending t.status ≡ false
    → (x : Exc) × (confirm event_type k amount n s ≡ (raise x, s))
unfolding confirm process_payment_succeeded process_payment_failed load_pending checked
settled_raises event_type k amount n s t there settled =
    elim (Bool-cases (str_eq event_type "payment.succeeded")) [
      | inl succeeded ↦ (transaction_already_processed k, ground arith)
      | inr other ↦ (type_error, ground arith)
    ]

-- An event about a transaction that is not pending any more, of whatever type and amount, changes
-- nothing in the database but stored events: what is settled is settled once.
pub settled_once :
    (str : Texts) (entry : ℕ) (event_type : String) (k : ℕ) (amount : Decimal) (n : ℕ) (s : Session)
    (t : Transaction)
    → find k s.store.transactions ≡ some t
    → is_pending t.status ≡ false
    → (events : List WebhookEvent) × (handle_webhook_event str entry event_type k amount n s
        ≡ (ok tt, with_events (record s { identity_map = [] }) events))
settled_once str entry event_type k amount n s t there settled =
    let (x, raises) = settled_raises event_type k amount n s t there settled in
    handled_error str entry event_type k amount n s raises
