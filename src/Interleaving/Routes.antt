-- ===== src/Interleaving/Routes.antt =====
-- The other segments of the requests keep what is watched.
use Prim.Native.String.{String}
use banking_payments_api.Prelude.{ℕ, Bool, Option, none, some, inl, inr, Option-cases}
use banking_payments_api.Store.Models.{User, Account, IdempotencyKey, WebhookEvent}
use banking_payments_api.Store.Schema.{
  insert_key, insert_event, set_response, set_processed, set_error,
}
use banking_payments_api.Store.Session.{Action, select_one_account}
use banking_payments_api.Schemas.{DepositCreate, validate_deposit, transaction_out}
use banking_payments_api.Dependencies.{get_current_account, or_404}
use banking_payments_api.Payments.{get_account_by_number}
use banking_payments_api.Idempotency.{
  key_row, reserve_idempotency_key, get_existing_idempotency_key, finalize_idempotency_key,
  set_found,
}
use banking_payments_api.Webhooks.{
  event_row, reserve_webhook_event, on_found, mark_webhook_processed, record_webhook_error,
}
use banking_payments_api.Routers.Transactions.{create_deposit}
use banking_payments_api.Routers.Transactions.Money.{validate_deposit_pos}
use banking_payments_api.Interleaving.Triples.{
  Sound, Anything, weaken, any-Sound, then-Sound, pure-Sound, throw-Sound, gets-Sound,
  scalar_one_or_none-Sound, register-Sound, commit-Sound, or_none-Sound, select_one_account-Sound,
}
use banking_payments_api.Interleaving.Money.{execute_deposit-Sound}
use banking_payments_api.Interleaving.Changes.{Watch}

module _ {w : Watch} where
  or_404-Sound : (o : Option Account) → Sound w Anything (or_404 o)
  or_404-Sound none = throw-Sound _
  or_404-Sound (some a) = pure-Sound a tt

  any_account-Sound : (test : Account → Bool) → Sound w Anything (select_one_account test)
  any_account-Sound test = weaken (λ _ _. tt) (select_one_account-Sound test)

  pub get_current_account-Sound : (u : User) → Sound w Anything (get_current_account u)
  unfolding get_current_account
  get_current_account-Sound u = any-Sound (any_account-Sound _) or_404-Sound

  pub get_account_by_number-Sound : (n : String) → Sound w Anything (get_account_by_number n)
  unfolding get_account_by_number
  get_account_by_number-Sound n = any_account-Sound _

  pub create_deposit-Sound :
      (p : DepositCreate) (a : Account) (n : ℕ) → Sound w Anything (create_deposit p a n)
  unfolding create_deposit
  create_deposit-Sound p a n = elim (Option-cases (validate_deposit p)) [
    | inl invalid ↦ rw (invalid, create_deposit) (throw-Sound _)
    | inr (c, valid) ↦
        rw (valid, create_deposit)
          (any-Sound (execute_deposit-Sound a.id c p.description n (validate_deposit_pos p c valid))
            (λ t. pure-Sound (transaction_out t) tt))
  ]

  pub reserve_idempotency_key-Sound :
      (user : ℕ) (key endpoint hash : String) (n : ℕ)
      → Sound w Anything (reserve_idempotency_key user key endpoint hash n)
  unfolding reserve_idempotency_key
  reserve_idempotency_key-Sound user key endpoint hash n =
      any-Sound (gets-Sound (λ s. s.now)) (λ now.
        let entry = key_row n user key endpoint hash now in
        then-Sound (register-Sound (insert_key entry) tt) (or_none-Sound entry))

  pub get_existing_idempotency_key-Sound :
      (user : ℕ) (key endpoint : String)
      → Sound w Anything (get_existing_idempotency_key user key endpoint)
  unfolding get_existing_idempotency_key
  get_existing_idempotency_key-Sound user key endpoint =
      any-Sound (gets-Sound _) scalar_one_or_none-Sound

  set_found-Sound :
      (o : Option IdempotencyKey) (code : ℕ) (body : String)
      → Sound w Anything (set_found o code body)
  unfolding set_found
  set_found-Sound none code body = pure-Sound tt tt
  set_found-Sound (some k) code body =
      then-Sound (register-Sound (set_response k.id code body) tt) commit-Sound

  pub finalize_idempotency_key-Sound :
      (k code : ℕ) (body : String) → Sound w Anything (finalize_idempotency_key k code body)
  unfolding finalize_idempotency_key
  finalize_idempotency_key-Sound k code body =
      any-Sound (gets-Sound _) (λ o. set_found-Sound o code body)

  pub reserve_webhook_event-Sound :
      (event_id event_type text : String) (n : ℕ)
      → Sound w Anything (reserve_webhook_event event_id event_type text n)
  unfolding reserve_webhook_event
  reserve_webhook_event-Sound event_id event_type text n =
      any-Sound (gets-Sound (λ s. s.now)) (λ now.
        let entry = event_row n event_id event_type text now in
        then-Sound (register-Sound (insert_event entry) tt) (or_none-Sound entry))

  on_found-Sound :
      (o : Option WebhookEvent) (m : Action (Unit {0}))
      → Sound w Anything m
      → Sound w Anything (on_found o m)
  unfolding on_found
  on_found-Sound none m h = pure-Sound tt tt
  on_found-Sound (some e) m h = h

  pub mark_webhook_processed-Sound : (k : ℕ) → Sound w Anything (mark_webhook_processed k)
  unfolding mark_webhook_processed
  mark_webhook_processed-Sound k =
      any-Sound (gets-Sound _)
        (λ o. on_found-Sound o _ (then-Sound (register-Sound (set_processed k) tt) commit-Sound))

  pub record_webhook_error-Sound :
      (k : ℕ) (message : String) → Sound w Anything (record_webhook_error k message)
  unfolding record_webhook_error
  record_webhook_error-Sound k message =
      any-Sound (gets-Sound _) (λ o.
        on_found-Sound o _ (then-Sound (register-Sound (set_error k message) tt) commit-Sound))
