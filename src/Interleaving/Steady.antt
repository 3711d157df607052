-- ===== src/Interleaving/Steady.antt =====
-- The programs of the requests keep what is watched in every segment.
use Prim.Native.String.{String}
use text.Mathlib.Text.{◌==◌ as str_eq}
use banking_payments_api.Prelude.{
  ℕ, ◌+◌, ◌≡◌, refl, Bool, true, false, Option, none, some, List, [], ◌∷◌, inl, inr, Bool-cases,
}
use banking_payments_api.Prelude.Int.{ℤ, pos, ◌≤ℤ◌}
use banking_payments_api.Store.Models.{Database, User, Account, IdempotencyKey, WebhookEvent}
use banking_payments_api.Store.Errors.{Outcome, ok, raise}
use banking_payments_api.Store.Session.{Session, Action, open_session}
use banking_payments_api.Schemas.{
  DepositCreate, PaymentCreate, WebhookPaymentConfirmation, validate_payment, transaction_out,
}
use banking_payments_api.Security.{Security, Decoded, payload, expired_signature, invalid_token}
use banking_payments_api.Idempotency.{compute_request_hash}
use banking_payments_api.Webhooks.{confirm}
use banking_payments_api.Routers.Transactions.{Encodings, payments_endpoint}
use banking_payments_api.Routers.Transactions.Money.{validate_payment_pos}
use banking_payments_api.Routers.Confirmation.{Gateway, validate_body}
use banking_payments_api.Routers.Auth.{is_refresh}
use banking_payments_api.Interleaving.{Program, last, next, facing}
use banking_payments_api.Interleaving.Programs.{
  deposit, payment, paid, paid_to, paid_validated, answered, accepted, signed, expiring, cleanup,
}
use banking_payments_api.Interleaving.Access.{refresh_decoded}
use banking_payments_api.Interleaving.Rule.{After, Keeping}
use banking_payments_api.Interleaving.Triples.{
  Fit, Sound, Anything, then-Sound, pure-Sound, throw-Sound,
}
use banking_payments_api.Interleaving.Money.{execute_payment-Sound}
use banking_payments_api.Interleaving.Settling.{confirm-Sound, expire_one-Sound}
use banking_payments_api.Interleaving.Routes.{
  get_current_account-Sound, get_account_by_number-Sound, create_deposit-Sound,
  reserve_idempotency_key-Sound, get_existing_idempotency_key-Sound, finalize_idempotency_key-Sound,
  reserve_webhook_event-Sound,
}
use banking_payments_api.Interleaving.Answers.{
  replay-Sound, attempt-Sound, concluded-Sound, cleanup_expired_idempotency_keys-Sound,
  cleanup_old_webhook_events-Sound, stale_ids-Sound,
}
use banking_payments_api.Interleaving.Users.{stored_token-Sound, owner-Sound, renew-Sound}
use banking_payments_api.Interleaving.Changes.{Watch, money, Watched}

-- a program whose segments keep what is watched in every fit session
pub record Steady {A : Type 0} (w : Watch) (p : Program A) : Type 1 where
  pub keeps : (s : Session) → Fit w s → Keeping (Watched w) p s

module _ {w : Watch} where
  pub last-Steady : {A : Type 0} {m : Action A} → Sound w Anything m → Steady w (last m)
  last-Steady {m = m} sound = record {
    keeps = λ s fit db h.
        ended (m (facing s db))
          (sound.keeps (facing s db) h (record { loaded = fit.loaded; staged = fit.staged }));
  }
    where
      ended :
          {B : Type 0} (r : Outcome B × Session)
          → After (Watched w) (λ a s'. Fit w s' × Anything a) r
          → Watched w r.1.store
      ended (ok _, s') after = after.0
      ended (raise e, s') after = after

  pub next-Steady :
      {A B : Type 0} {m : Action B} {f : B → Program A}
      → Sound w Anything m
      → ((b : B) → Steady w (f b))
      → Steady w (next m f)
  next-Steady {m = m} {f = f} sound rest = record {
    keeps = λ s fit db h.
        went (m (facing s db))
          (sound.keeps (facing s db) h (record { loaded = fit.loaded; staged = fit.staged }));
  }
    where
      went :
          (r : Outcome _ × Session)
          → After (Watched w) (λ a s'. Fit w s' × Anything a) r
          → After (Watched w) (λ b. Keeping (Watched w) (f b)) r
      went (ok b, s') after = (after.0, (rest b).keeps s' after.1.0)
      went (raise e, s') after = after

  pub opened :
      {A : Type 0} (now : ℕ) (db : Database) {p : Program A}
      → Steady w p
      → Keeping (Watched w) p (open_session now db)
  opened now db steady = steady.keeps (open_session now db) (record { loaded = tt; staged = tt })

  pub deposit-Steady : (p : DepositCreate) (u : User) (n : ℕ) → Steady w (deposit p u n)
  unfolding deposit
  deposit-Steady p u n =
      next-Steady (get_current_account-Sound u) (λ a. last-Steady (create_deposit-Sound p a n))

  module _ (enc : Encodings) where
    paid-Steady :
        (a : Account) (r : ℕ) (c : ℤ) (d : Option (List ℕ)) (key hash : String) (n : ℕ)
        (entry : Option IdempotencyKey)
        → pos 1 ≤ℤ c
        → Steady w (paid enc a r c d key hash n entry)
    unfolding paid
    paid-Steady a r c d key hash n none p =
        next-Steady (get_existing_idempotency_key-Sound a.user_id key payments_endpoint)
          (λ o. last-Steady (replay-Sound enc o hash))
    paid-Steady a r c d key hash n (some entry) p =
        next-Steady (execute_payment-Sound a.id r c d entry.id n p) (λ t.
          let response = transaction_out t in
          last-Steady (
            then-Sound (finalize_idempotency_key-Sound entry.id 201 (enc.dump_json response))
              (pure-Sound response tt)))

    paid_to-Steady :
        (p : PaymentCreate) (c : ℤ) (a : Account) (key : String) (key_id n : ℕ) (o : Option Account)
        → pos 1 ≤ℤ c
        → Steady w (paid_to enc p c a key key_id n o)
    unfolding paid_to
    paid_to-Steady p c a key key_id n none q = last-Steady (throw-Sound _)
    paid_to-Steady p c a key key_id n (some recipient) q =
        let hash = compute_request_hash enc.dumps enc.sha256 p in
        next-Steady (reserve_idempotency_key-Sound a.user_id key payments_endpoint hash key_id)
          (λ entry. paid-Steady a recipient.id c p.description key hash n entry q)

    paid_validated-Steady :
        (p : PaymentCreate) (a : Account) (key : String) (key_id n : ℕ) (o : Option ℤ)
        → validate_payment p ≡ o
        → Steady w (paid_validated enc p a key key_id n o)
    unfolding paid_validated
    paid_validated-Steady p a key key_id n none e = last-Steady (throw-Sound _)
    paid_validated-Steady p a key key_id n (some c) e =
        elim (Bool-cases (str_eq p.recipient_account_number a.account_number)) [
          | inl own ↦ rw own (last-Steady (throw-Sound _))
          | inr other ↦ rw other (
              next-Steady (get_account_by_number-Sound p.recipient_account_number)
                (λ o. paid_to-Steady p c a key key_id n o (validate_payment_pos p c e)))
        ]

    pub payment-Steady :
        (p : PaymentCreate) (u : User) (key : String) (key_id n : ℕ)
        → Steady w (payment enc p u key key_id n)
    unfolding payment
    payment-Steady p u key key_id n =
        next-Steady (get_current_account-Sound u)
          (λ a. paid_validated-Steady p a key key_id n (validate_payment p) refl)

  module _ (sec : Security) where
    pub refresh_decoded-Steady :
        (token : String) (token_id jti : ℕ) (d : Decoded)
        → Steady w (refresh_decoded sec token token_id jti d)
    unfolding refresh_decoded
    refresh_decoded-Steady token token_id jti expired_signature = last-Steady (throw-Sound _)
    refresh_decoded-Steady token token_id jti invalid_token = last-Steady (throw-Sound _)
    refresh_decoded-Steady token token_id jti (payload p) = elim (Bool-cases (is_refresh p.type)) [
      | inr other ↦ rw other (last-Steady (throw-Sound _))
      | inl good ↦ rw good (
          next-Steady (stored_token-Sound sec token) (λ stored.
            next-Steady (owner-Sound sec p.sub stored)
              (λ u. last-Steady (renew-Sound sec token_id jti u))))
    ]

module _ {Bytes : Type 0} (g : Gateway Bytes) where
  answered-Steady :
      (p : WebhookPaymentConfirmation) (n : ℕ) (o : Option WebhookEvent)
      → Steady money (answered g p n o)
  unfolding answered
  answered-Steady p n none = last-Steady (pure-Sound _ tt)
  answered-Steady p n (some entry) =
      next-Steady
        (attempt-Sound (confirm p.event_type p.transaction_id p.amount n)
          (confirm-Sound p.event_type p.transaction_id p.amount n))
        (λ failure. last-Steady (then-Sound (concluded-Sound g entry.id failure) (pure-Sound _ tt)))

  accepted-Steady :
      (body : Bytes) (r n : ℕ) (o : Option WebhookPaymentConfirmation)
      → Steady money (accepted g body r n o)
  unfolding accepted
  accepted-Steady body r n none = last-Steady (throw-Sound _)
  accepted-Steady body r n (some p) =
      next-Steady (reserve_webhook_event-Sound p.event_id p.event_type (g.decode body) r)
        (answered-Steady p n)

  pub signed-Steady :
      (body : Bytes) (r n : ℕ) (o : Outcome Bool) → Steady money (signed g body r n o)
  unfolding signed
  signed-Steady body r n (raise e) = last-Steady (throw-Sound e)
  signed-Steady body r n (ok false) = last-Steady (throw-Sound _)
  signed-Steady body r n (ok true) = accepted-Steady body r n (validate_body g body)

expiring-Steady : (ks : List ℕ) (count : ℕ) → Steady money (expiring ks count)
unfolding expiring
expiring-Steady [] count = last-Steady (pure-Sound count tt)
expiring-Steady (k ∷ ks) count =
    next-Steady (expire_one-Sound k) (λ n. expiring-Steady ks (count + n))

pub cleanup-Steady : Steady money cleanup
unfolding cleanup
cleanup-Steady = next-Steady cleanup_expired_idempotency_keys-Sound (λ _.
    next-Steady cleanup_old_webhook_events-Sound
      (λ _. next-Steady stale_ids-Sound (λ ks. expiring-Steady ks 0)))
