-- ===== src/Routers/Transactions/Replay.antt =====
-- An idempotency key: a payment that succeeded is not made again.
use Prim.Native.String.{String}
use text.Mathlib.Text.{◌==◌ as str_eq}
use text.Mathlib.TextPositions.{eq_refl}
use banking_payments_api.Prelude.{
  ℕ, ◌≡◌, refl, sym, ap, ◌∙◌, true, false, Bool, Bool-cases, none, some, List, [], ◌∷◌, arith, inl,
  inr,
}
use banking_payments_api.Prelude.Int.{ℤ, pos, ◌≤ℤ◌}
use banking_payments_api.Prelude.Lists.{select}
use banking_payments_api.Store.Tables.{find, update}
use banking_payments_api.Store.Models.{
  Account, Transaction, IdempotencyKey, idempotency_key_id, user_id,
}
use banking_payments_api.Store.Errors.{Outcome, ok, integrity_error}
use banking_payments_api.Store.Schema.{
  select_none, key_error, same_key, any_row, fits, with_response,
}
use banking_payments_api.Store.Session.{
  Session, Action, pure, ◌>>◌, >>=-of_ok, >>=-of_raise, Action-cases,
}
use banking_payments_api.Store.Session.Loading.{IsClean}
use banking_payments_api.Ledger.Moves.{Moved, SameRecords}
use banking_payments_api.Schemas.{PaymentCreate, TransactionOut, transaction_out}
use banking_payments_api.Idempotency.{
  compute_request_hash, key_row, reserve_idempotency_key, get_existing_idempotency_key,
  finalize_idempotency_key,
}
use banking_payments_api.Idempotency.Keys.{with_keys, reserve_written, reserve_taken, finalized}
use banking_payments_api.Payments.{execute_payment}
use banking_payments_api.Payments.Effect.{execute_payment-Moves}
use banking_payments_api.Routers.Transactions.{Encodings, payments_endpoint, replay, pay, pay_to}

any_row-select :
    {A : Type 0} (p : A → Bool) (x : A) (rows : List A)
    → select p rows ≡ x ∷ []
    → any_row p rows ≡ true
any_row-select p x [] e = absurd (ground arith)
any_row-select p x (y ∷ ys) e = elim (Bool-cases (p y)) [
  | inl hit ↦ rw hit refl
  | inr miss ↦ rw (miss, any_row-select p x ys (rw miss at e)) refl
]

module _ (user : ℕ) (key endpoint hash : String) (n : ℕ) (s : Session) where
  -- what a free key says of the rows
  key_free :
      key_error s.store (key_row n user key endpoint hash s.now) ≡ none
      → (fits 255 key ≡ true)
        × (fits 255 endpoint ≡ true)
        × (fits 64 hash ≡ true)
        × (any_row (same_key user key endpoint) s.store.idempotency_keys ≡ false)
  unfolding key_error
  key_free free = ground arith

  -- a key that a row has already cannot be reserved again
  key_known :
      fits 255 key ≡ true
      → fits 255 endpoint ≡ true
      → fits 64 hash ≡ true
      → any_row (same_key user key endpoint) s.store.idempotency_keys ≡ true
      → key_error s.store (key_row n user key endpoint hash s.now) ≡ some integrity_error
  unfolding key_error
  key_known a b c known = ground arith

  -- the row that carries a key is the one that a query for it selects
  row_selected :
      (code : ℕ) (body : String) (rows : List IdempotencyKey)
      → any_row (same_key user key endpoint) rows ≡ false
      → select
          (same_key user key endpoint)
          (with_response code body (key_row n user key endpoint hash s.now) ∷ rows)
        ≡ with_response code body (key_row n user key endpoint hash s.now) ∷ []
  row_selected code body rows others =
      ground
        (arith, eq_refl key, eq_refl endpoint, select_none (same_key user key endpoint) rows others)

module _ (enc : Encodings) (p : PaymentCreate) (c : ℤ) (account : Account) (key : String)
    (recipient : Account) where
  unfoldable pub request_hash : String
  request_hash = compute_request_hash enc.dumps enc.sha256 p

  -- the keys that a payment leaves, which reserved its key and was made
  answered :
      (row : IdempotencyKey) (n : ℕ) (s s' : Session) (rows : List IdempotencyKey)
      (response : TransactionOut)
      → pos 1 ≤ℤ c
      → IsClean s
      → s.store.idempotency_keys ≡ row ∷ rows
      → pay enc account recipient.id c p.description key request_hash n (some row) s
        ≡ (ok response, s')
      → s'.store.idempotency_keys ≡ with_response 201 (enc.dump_json response) row ∷ rows
  unfolding pay
  answered row n s s' rows response positive clean kept e =
      let act = execute_payment account.id recipient.id c p.description row.id n in
      let rest : Transaction → Action TransactionOut = λ t.
        (finalize_idempotency_key row.id 201 (enc.dump_json (transaction_out t))
          >> pure (transaction_out t)) in
      elim (Action-cases act s) [
        | inr (x, s₁, r) ↦ let q = sym (>>=-of_raise act rest r) ∙ e in cc
        | inl (t, s₁, r) ↦
            let moved : Moved SameRecords s.store (pos 0) s₁ = rw r at (
              execute_payment-Moves account.id recipient.id c p.description row.id n s positive
                clean) in
            let keys : s₁.store.idempotency_keys ≡ row ∷ rows =
              moved.frame.idempotency_keys ∙ kept in
            let found : find row.id s₁.store.idempotency_keys ≡ some row = ground arith in
            let q = sym (>>=-of_ok act rest r) ∙ e in
            let body = enc.dump_json (transaction_out t) in
            let stored = update row.id (with_response 201 body) s₁.store.idempotency_keys in
            let f = finalized row.id 201 body s₁ moved.clean row found in
            let z : (ok (transaction_out t), with_keys s₁ stored) ≡ (ok response, s') =
              sym (
                >>=-of_ok (finalize_idempotency_key row.id 201 body) (λ _. pure (transaction_out t))
                  f)
              ∙ q in
            let same : transaction_out t ≡ response = cc in
            let written : stored ≡ with_response 201 body row ∷ rows = ground arith in
            sym (ap (λ (r : Outcome TransactionOut × Session). r.1.store.idempotency_keys) z)
            ∙ (written ∙ ap (λ o. with_response 201 (enc.dump_json o) row ∷ rows) same)
      ]

  -- a request whose key has its response: the response again, and nothing is written
  replayed :
      (row : IdempotencyKey) (key_id n : ℕ) (s : Session) (response : TransactionOut)
      → key_error s.store (key_row key_id account.user_id key payments_endpoint request_hash s.now)
        ≡ some integrity_error
      → select (same_key account.user_id key payments_endpoint) s.store.idempotency_keys ≡ row ∷ []
      → row.request_hash ≡ request_hash
      → row.response_body ≡ some (enc.dump_json response)
      → enc.validate_json (enc.dump_json response) ≡ some response
      → s.unflushed ≡ []
      → pay_to enc p c account key key_id n (some recipient) s
        ≡ (ok response, record s { identity_map = []; unflushed = [] })
  unfolding pay_to pay replay get_existing_idempotency_key request_hash
  replayed row key_id n s response refused selected same stored parsed clean =
      let taken =
        reserve_taken account.user_id key payments_endpoint request_hash key_id s clean refused in
      let equal : str_eq row.request_hash request_hash ≡ true = rw same (eq_refl request_hash) in
      ground arith

  -- Behind the validation and the look-up of the two accounts: a payment of a positive amount that
  -- succeeded in a clean session with a key that was free is not made again by the same payload with
  -- the same key. In any later session with nothing to write in which the query for the user's key at
  -- this endpoint gives what it gave when the payment was made, the request is answered with the same
  -- response and writes nothing, provided that the response can be read back from its text. Other keys
  -- may have come and gone; the cleanup deletes this one when it has expired, after 24 hours.
  pub paid_once :
      (key_id n key_id' n' : ℕ) (s s' later : Session) (response : TransactionOut)
      → enc.validate_json (enc.dump_json response) ≡ some response
      → pos 1 ≤ℤ c
      → IsClean s
      → key_error s.store (key_row key_id account.user_id key payments_endpoint request_hash s.now)
        ≡ none
      → pay_to enc p c account key key_id n (some recipient) s ≡ (ok response, s')
      → select (same_key account.user_id key payments_endpoint) later.store.idempotency_keys
        ≡ select (same_key account.user_id key payments_endpoint) s'.store.idempotency_keys
      → later.unflushed ≡ []
      → pay_to enc p c account key key_id' n' (some recipient) later
        ≡ (ok response, record later { identity_map = []; unflushed = [] })
  unfolding pay_to request_hash
  paid_once key_id n key_id' n' s s' later response parsed positive clean free paid kept idle =
      let row = key_row key_id account.user_id key payments_endpoint request_hash s.now in
      let rows = s.store.idempotency_keys in
      let (a, b, d, others) =
        key_free account.user_id key payments_endpoint request_hash key_id s free in
      let reserved =
        reserve_written account.user_id key payments_endpoint request_hash key_id s clean.flushed
          free in
      let first : pay enc account recipient.id c p.description key request_hash n (some row)
            (with_keys s (row ∷ rows))
          ≡ (ok response, s') =
        sym (
          >>=-of_ok
            (reserve_idempotency_key account.user_id key payments_endpoint request_hash key_id)
            (pay enc account recipient.id c p.description key request_hash n) reserved)
        ∙ paid in
      let keys =
        answered row n (with_keys s (row ∷ rows)) s' rows response positive
          (record { current = clean.current; flushed = refl }) refl first in
      let selected =
        row_selected account.user_id key payments_endpoint request_hash key_id s 201
          (enc.dump_json response) rows others in
      let mine = same_key account.user_id key payments_endpoint in
      let still : select mine later.store.idempotency_keys
          ≡ with_response 201 (enc.dump_json response) row ∷ [] =
        kept ∙ (ap (select mine) keys ∙ selected) in
      let known : any_row mine later.store.idempotency_keys ≡ true =
        any_row-select mine _ later.store.idempotency_keys still in
      replayed (with_response 201 (enc.dump_json response) row) key_id' n' later response
        (key_known account.user_id key payments_endpoint request_hash key_id' later a b d known)
        still refl refl parsed idle
