-- ===== src/Interleaving/Alone.antt =====
-- A program of segments that nothing interrupts is the handler of app/ that it was cut from.
pub mod Access
pub mod Rows
use Prim.Native.String.{String}
use text.Mathlib.Text.{◌==◌ as str_eq}
use banking_payments_api.Prelude.{
  ℕ, ◌+◌, ◌-◌, ◌*◌, map, ◌≡◌, refl, sym, ap, ◌∙◌, Bool, true, false, ◌||◌, ltb, Option, none, some,
  List, [], ◌∷◌, arith, inl, inr, Bool-cases, Option-cases,
}
use banking_payments_api.Prelude.Int.{ℤ}
use banking_payments_api.Prelude.Lists.{select}
use banking_payments_api.Store.Models.{
  Account, User, Database, Transaction, IdempotencyKey, WebhookEvent, RefreshToken,
}
use banking_payments_api.Store.Errors.{Outcome, ok, raise, Exc}
use banking_payments_api.Store.Session.{
  Session, Action, ◌>>=◌, ◌>>◌, >>=-of_ok, >>=-of_raise, Action-cases, open_session, rollback, pure,
}
use banking_payments_api.Schemas.{
  DepositCreate, PaymentCreate, WebhookPaymentConfirmation, validate_payment,
}
use banking_payments_api.Security.{Security, Decoded, payload, expired_signature, invalid_token}
use banking_payments_api.Dependencies.{get_current_account}
use banking_payments_api.Payments.{get_account_by_number}
use banking_payments_api.Idempotency.{reserve_idempotency_key, compute_request_hash}
use banking_payments_api.Webhooks.{reserve_webhook_event, confirm, handle_webhook_event, on_error}
use banking_payments_api.Cleanup.{
  expire_each, expire_one, is_stale, pending_transaction_timeout_hours,
  expire_stale_pending_transactions, run_cleanup_job, cleanup_expired_idempotency_keys,
  cleanup_old_webhook_events,
}
use banking_payments_api.Routers.Transactions.{
  Encodings, payments_endpoint, deposit_request, payment_request, create_payment, pay_validated,
  pay_to, pay,
}
use banking_payments_api.Routers.Confirmation.{
  Gateway, payment_confirmation, validate_body, verify_signature, answer, accept, when_signed,
}
use banking_payments_api.Routers.Auth.{
  UserCreate, register, login as login_route, refresh_token_endpoint, rotate, renew,
  logout as logout_route, is_refresh, refresh_decoded as renewal,
}
use banking_payments_api.Interleaving.{alone, facing}
use banking_payments_api.Interleaving.Programs.{
  deposit, payment, paid, paid_to, paid_validated, attempt, concluded, answered, accepted, signed,
  delivery, stale_ids, expiring, cleanup,
}
use banking_payments_api.Interleaving.Access.{
  user_with_email, registration, login, stored_token, owner, refresh, refresh_decoded, logout,
}
use banking_payments_api.Interleaving.Requests.{Request, start, rows_after}

-- What follows an action may be replaced where it runs.
pub >>=-cong :
    {A B : Type 0} (m : Action A) (f g : A → Action B) (s : Session)
    → ((a : A) (s' : Session) → f a s' ≡ g a s')
    → (m >>= f) s ≡ (m >>= g) s
>>=-cong m f g s h = elim (Action-cases m s) [
  | inl (a, s', e) ↦ >>=-of_ok m f e ∙ (h a s' ∙ sym (>>=-of_ok m g e))
  | inr (x, s', e) ↦ >>=-of_raise m f e ∙ sym (>>=-of_raise m g e)
]

>>=-assoc :
    {A B C : Type 0} (m : Action A) (f : A → Action B) (g : B → Action C) (s : Session)
    → (m >>= (λ a. f a >>= g)) s ≡ (m >>= f >>= g) s
>>=-assoc m f g s = elim (Action-cases m s) [
  | inl (a, s', e) ↦ ground arith
  | inr (x, s', e) ↦ ground arith
]

>>=-first :
    {A B : Type 0} (m k : Action A) (f : A → Action B) (s : Session)
    → m s ≡ k s
    → (m >>= f) s ≡ (k >>= f) s
>>=-first m k f s e = ground arith

pub alone-deposit :
    (p : DepositCreate) (user : User) (n : ℕ) (s : Session)
    → alone (deposit p user n) s ≡ deposit_request p user n s
unfolding alone deposit deposit_request
alone-deposit p user n s = refl

module _ (enc : Encodings) where
  alone-paid :
      (account : Account) (r : ℕ) (c : ℤ) (d : Option (List ℕ)) (key hash : String) (n : ℕ)
      (entry : Option IdempotencyKey) (s : Session)
      → alone (paid enc account r c d key hash n entry) s ≡ pay enc account r c d key hash n entry s
  unfolding alone paid pay
  alone-paid account r c d key hash n none s = refl
  alone-paid account r c d key hash n (some entry) s = refl

  alone-paid_to :
      (p : PaymentCreate) (c : ℤ) (account : Account) (key : String) (key_id n : ℕ)
      (recipient : Option Account) (s : Session)
      → alone (paid_to enc p c account key key_id n recipient) s
        ≡ pay_to enc p c account key key_id n recipient s
  unfolding alone paid_to pay_to
  alone-paid_to p c account key key_id n none s = refl
  alone-paid_to p c account key key_id n (some recipient) s =
      let hash = compute_request_hash enc.dumps enc.sha256 p in
      >>=-cong (reserve_idempotency_key account.user_id key payments_endpoint hash key_id) _ _ s
        (alone-paid account recipient.id c p.description key hash n)

  alone-paid_validated :
      (p : PaymentCreate) (account : Account) (key : String) (key_id n : ℕ) (o : Option ℤ)
      (s : Session)
      → alone (paid_validated enc p account key key_id n o) s
        ≡ pay_validated enc p account key key_id n o s
  unfolding alone paid_validated pay_validated
  alone-paid_validated p account key key_id n none s = refl
  alone-paid_validated p account key key_id n (some c) s =
      elim (Bool-cases (str_eq p.recipient_account_number account.account_number)) [
        | inl own ↦ rw own refl
        | inr other ↦ rw other (
            >>=-cong (get_account_by_number p.recipient_account_number) _ _ s
              (alone-paid_to p c account key key_id n))
      ]

  pub alone-payment :
      (p : PaymentCreate) (user : User) (key : String) (key_id n : ℕ) (s : Session)
      → alone (payment enc p user key key_id n) s ≡ payment_request enc p user key key_id n s
  unfolding alone payment payment_request create_payment
  alone-payment p user key key_id n s =
      >>=-cong (get_current_account user) _ _ s
        (λ account. alone-paid_validated p account key key_id n (validate_payment p))

module _ {Bytes : Type 0} (g : Gateway Bytes) where
  settled_alone :
      (entry : ℕ) (p : WebhookPaymentConfirmation) (n : ℕ) (s : Session)
      → ((λ q. attempt (confirm p.event_type p.transaction_id p.amount n q)) >>= concluded g entry)
          s
        ≡ handle_webhook_event g.texts entry p.event_type p.transaction_id p.amount n s
  unfolding attempt concluded handle_webhook_event on_error rollback
  settled_alone entry p n s =
      elim (Action-cases (confirm p.event_type p.transaction_id p.amount n) s) [
        | inl (_, s', e) ↦ ground arith
        | inr (x, s', e) ↦ ground arith
      ]

  alone-answered :
      (p : WebhookPaymentConfirmation) (n : ℕ) (entry : WebhookEvent) (s : Session)
      → alone (answered g p n (some entry)) s
        ≡ (handle_webhook_event g.texts entry.id p.event_type p.transaction_id p.amount n
              >> pure "accepted, processing")
            s
  unfolding alone answered
  alone-answered p n entry s =
      let tried : Action (Option Exc) =
        λ q. attempt (confirm p.event_type p.transaction_id p.amount n q) in
      >>=-assoc tried (concluded g entry.id) (λ _. pure "accepted, processing") s
      ∙ >>=-first (tried >>= concluded g entry.id)
          (handle_webhook_event g.texts entry.id p.event_type p.transaction_id p.amount n)
          (λ _. pure "accepted, processing") s (settled_alone entry.id p n s)

  alone-answer :
      (p : WebhookPaymentConfirmation) (n : ℕ) (entry : Option WebhookEvent) (s : Session)
      → alone (answered g p n entry) s ≡ answer g p n entry s
  unfolding alone answered answer
  alone-answer p n none s = refl
  alone-answer p n (some entry) s = alone-answered p n entry s

  alone-signed :
      (body : Bytes) (r n : ℕ) (o : Outcome Bool) (s : Session)
      → alone (signed g body r n o) s ≡ when_signed g body r n o s
  unfolding alone signed accepted when_signed accept
  alone-signed body r n (raise e) s = refl
  alone-signed body r n (ok false) s = refl
  alone-signed body r n (ok true) s = elim (Option-cases (validate_body g body)) [
    | inl invalid ↦ rw (invalid, accepted, accept) refl
    | inr (p, valid) ↦
        rw (valid, accepted, accept)
          (>>=-cong (reserve_webhook_event p.event_id p.event_type (g.decode body) r) _ _ s
            (alone-answer p n))
  ]

  pub alone-delivery :
      (body : Bytes) (signature secret : String) (r n : ℕ) (s : Session)
      → alone (delivery g body signature secret r n) s
        ≡ payment_confirmation g body signature secret r n s
  unfolding delivery payment_confirmation
  alone-delivery body signature secret r n s =
      alone-signed body r n (verify_signature g body signature secret) s

alone-expiring :
    (ks : List ℕ) (count : ℕ) (s : Session) → alone (expiring ks count) s ≡ expire_each ks count s
unfolding alone expiring expire_each
alone-expiring [] count s = refl
alone-expiring (k ∷ ks) count s =
    >>=-cong (expire_one k) _ _ s (λ n s'. alone-expiring ks (count + n) s')

pub alone-cleanup :
    (now : ℕ) (db : Database)
    → (alone cleanup (open_session now db)).1.store ≡ run_cleanup_job now db
unfolding alone cleanup run_cleanup_job stale_ids expire_stale_pending_transactions
alone-cleanup now db =
    let ids : Session → List ℕ = λ s.
      map (λ (t : Transaction). t.id)
        (select (is_stale (s.now - pending_transaction_timeout_hours * 3600))
          s.store.transactions) in
    ap (λ (r : Outcome ℕ × Session). r.1.store)
      (>>=-cong cleanup_expired_idempotency_keys _ _ (open_session now db)
        (λ _ s. >>=-cong cleanup_old_webhook_events _ _ s (λ _ s'. alone-expiring (ids s') 0 s')))
