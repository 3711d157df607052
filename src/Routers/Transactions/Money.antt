-- ===== src/Routers/Transactions/Money.antt =====
-- What the two money routes do to the funds of the bank.
use Prim.Native.String.{String}
use text.Mathlib.Text.{◌==◌ as str_eq}
use mathlib.Core.Path.{subst}
use banking_payments_api.Prelude.{
  ℕ, ◌≡◌, refl, sym, Option, none, some, List, inl, inr, arith, Option-cases, Bool-cases,
}
use banking_payments_api.Prelude.Int.{ℤ, pos, ◌≤ℤ◌}
use banking_payments_api.Store.Models.{Account, User, IdempotencyKey}
use banking_payments_api.Store.Decimal.{Decimal, cents}
use banking_payments_api.Store.Session.{Session, pure, ◌>>=◌, ◌>>◌}
use banking_payments_api.Store.Session.Loading.{IsClean}
use banking_payments_api.Ledger.Moves.{Moves, Frame, SameRecords}
use banking_payments_api.Ledger.Composing.{
  Keeps, Closed, map-Keeps, Safe, Safe-Closed, IsSafe, bind-Keeps, kept-Keeps, Reads-Keeps,
  Moves-IsSafe, Reads-Moves, Moves-map,
}
use banking_payments_api.Schemas.{
  DepositCreate, PaymentCreate, valid_amount, validate_deposit, validate_payment, transaction_out,
}
use banking_payments_api.Routers.Transactions.Queries.{
  get_current_account-Reads, get_account_by_number-Reads, get_existing_idempotency_key-Reads,
}
use banking_payments_api.Dependencies.{get_current_account}
use banking_payments_api.Idempotency.{
  compute_request_hash, get_existing_idempotency_key, reserve_idempotency_key,
  finalize_idempotency_key,
}
use banking_payments_api.Idempotency.Keys.{
  reserve_idempotency_key-Moves, finalize_idempotency_key-Moves,
}
use banking_payments_api.Payments.{execute_deposit, execute_payment, get_account_by_number}
use banking_payments_api.Payments.Effect.{execute_deposit-Moves, execute_payment-Moves}
use banking_payments_api.Routers.Transactions.{
  Encodings, payments_endpoint, response_of, create_deposit, deposit_request, replay, pay, pay_to,
  pay_validated, create_payment, payment_request,
}

-- A validated amount is positive.
pub valid_amount_pos : (d : Decimal) (c : ℤ) → valid_amount d ≡ some c → pos 1 ≤ℤ c
unfolding valid_amount
valid_amount_pos d c h = elim (Option-cases (cents d)) [
  | inl fraction ↦ ground arith
  | inr (x, e) ↦ ground arith
]

pub validate_deposit_pos : (p : DepositCreate) (c : ℤ) → validate_deposit p ≡ some c → pos 1 ≤ℤ c
unfolding validate_deposit
validate_deposit_pos p c h = valid_amount_pos p.amount c (ground arith)

pub validate_payment_pos : (p : PaymentCreate) (c : ℤ) → validate_payment p ≡ some c → pos 1 ≤ℤ c
unfolding validate_payment
validate_payment_pos p c h = valid_amount_pos p.amount c (ground arith)

module _ (p : DepositCreate) (c : ℤ) (valid : validate_deposit p ≡ some c) (n : ℕ) where
  create_deposit-Moves :
      (account : Account) (s : Session)
      → IsClean s
      → Moves SameRecords s.store c (create_deposit p account n s)
  unfolding create_deposit
  create_deposit-Moves account s clean =
      let e : create_deposit p account n
          ≡ (execute_deposit account.id c p.description n >>= λ t. pure (transaction_out t)) =
        rw (valid, create_deposit) refl in
      rw e (
        Moves-map SameRecords c (execute_deposit account.id c p.description n) transaction_out s
          s.store
          (execute_deposit-Moves account.id c p.description n s (validate_deposit_pos p c valid)
            clean))

  -- A request for a deposit that validates as `c` cents, in a clean session: it raises and writes
  -- nothing, or the funds of the bank grow by exactly `c`, no balance is negative if none was, and no
  -- other table changes.
  pub deposit_request-Moves :
      (user : User) (s : Session)
      → IsClean s
      → Moves SameRecords s.store c (deposit_request p user n s)
  unfolding deposit_request
  deposit_request-Moves user s clean =
      Reads-Moves SameRecords c (get_current_account user) (λ a. create_deposit p a n) s
        (get_current_account-Reads user s clean) create_deposit-Moves

  -- What the deposit that the service executes keeps, a request keeps.
  module _ (G : Frame) (closed : Closed G)
      (credited : (k : ℕ) (d : Option (List ℕ)) (s : Session)
        → IsClean s
        → Keeps G s.store (execute_deposit k c d n s)) where
    create_deposit-Keeps :
        (account : Account) (s : Session)
        → IsClean s
        → Keeps G s.store (create_deposit p account n s)
    unfolding create_deposit
    create_deposit-Keeps account s clean =
        let e : create_deposit p account n
            ≡ (execute_deposit account.id c p.description n >>= λ t. pure (transaction_out t)) =
          rw (valid, create_deposit) refl in
        rw e (
          map-Keeps G (execute_deposit account.id c p.description n) transaction_out s
            (credited account.id p.description s clean))

    pub deposit_request-Keeps :
        (user : User) (s : Session) → IsClean s → Keeps G s.store (deposit_request p user n s)
    unfolding deposit_request
    deposit_request-Keeps user s clean =
        Reads-Keeps G closed (get_current_account user) (λ a. create_deposit p a n) s
          (get_current_account-Reads user s clean) create_deposit-Keeps

module _ (enc : Encodings) where
  pub replay-session :
      (o : Option IdempotencyKey) (hash : String) (s : Session) → (replay enc o hash s).1 ≡ s
  unfolding replay
  replay-session none hash s = refl
  replay-session (some k) hash s = elim (Bool-cases (str_eq k.request_hash hash)) [
    | inr other ↦ rw other refl
    | inl same ↦ rw same (elim (Option-cases k.response_body) [
      | inl waiting ↦ rw (waiting, response_of) refl
      | inr (body, stored) ↦ elim (Option-cases (enc.validate_json body)) [
        | inl garbled ↦ ground arith
        | inr (r, parsed) ↦ ground arith
      ]
    ])
  ]

  -- What every payment that the service executes keeps, a request keeps.
  module _ (G : Frame) (closed : Closed G)
      (paid : (k r : ℕ) (x : ℤ) (d : Option (List ℕ)) (key n : ℕ) (s : Session)
        → pos 1 ≤ℤ x
        → IsClean s
        → Keeps G s.store (execute_payment k r x d key n s)) where
    replay-Keeps :
        (o : Option IdempotencyKey) (hash : String) (s : Session)
        → Keeps G s.store (replay enc o hash s)
    replay-Keeps o hash s =
        subst (λ (q : Session). G s.store q.store) (sym (replay-session o hash s))
          (closed.idle s.store)

    pay-Keeps :
        (account : Account) (r : ℕ) (c : ℤ) (d : Option (List ℕ)) (key hash : String) (n : ℕ)
        (entry : Option IdempotencyKey) (s : Session)
        → pos 1 ≤ℤ c
        → IsClean s
        → Keeps G s.store (pay enc account r c d key hash n entry s)
    unfolding pay
    pay-Keeps account r c d key hash n none s positive clean =
        Reads-Keeps G closed (get_existing_idempotency_key account.user_id key payments_endpoint)
          (λ o. replay enc o hash) s
          (get_existing_idempotency_key-Reads account.user_id key payments_endpoint s clean)
          (λ o s' _. replay-Keeps o hash s')
    pay-Keeps account r c d key hash n (some entry) s positive clean =
        bind-Keeps G closed SameRecords (execute_payment account.id r c d entry.id n)
          (λ t.
            finalize_idempotency_key entry.id 201 (enc.dump_json (transaction_out t))
            >> pure (transaction_out t))
          s (execute_payment-Moves account.id r c d entry.id n s positive clean)
          (paid account.id r c d entry.id n s positive clean)
          (λ t s' clean'.
            kept-Keeps G closed
              (finalize_idempotency_key entry.id 201 (enc.dump_json (transaction_out t)))
              (λ _. pure (transaction_out t)) s'
              (finalize_idempotency_key-Moves entry.id 201 (enc.dump_json (transaction_out t)) s'
                clean')
              (λ _ s'' _. closed.idle s''.store))

    pay_to-Keeps :
        (p : PaymentCreate) (c : ℤ) (account : Account) (key : String) (key_id n : ℕ)
        (recipient : Option Account) (s : Session)
        → pos 1 ≤ℤ c
        → IsClean s
        → Keeps G s.store (pay_to enc p c account key key_id n recipient s)
    unfolding pay_to
    pay_to-Keeps p c account key key_id n none s positive clean = closed.idle s.store
    pay_to-Keeps p c account key key_id n (some recipient) s positive clean =
        let hash = compute_request_hash enc.dumps enc.sha256 p in
        kept-Keeps G closed
          (reserve_idempotency_key account.user_id key payments_endpoint hash key_id)
          (pay enc account recipient.id c p.description key hash n) s
          (reserve_idempotency_key-Moves account.user_id key payments_endpoint hash key_id s
            clean.flushed clean)
          (λ entry s' clean'.
            pay-Keeps account recipient.id c p.description key hash n entry s' positive clean')

    pay_validated-Keeps :
        (p : PaymentCreate) (account : Account) (key : String) (key_id n : ℕ) (o : Option ℤ)
        (s : Session)
        → validate_payment p ≡ o
        → IsClean s
        → Keeps G s.store (pay_validated enc p account key key_id n o s)
    unfolding pay_validated
    pay_validated-Keeps p account key key_id n none s invalid clean = closed.idle s.store
    pay_validated-Keeps p account key key_id n (some c) s valid clean =
        elim (Bool-cases (str_eq p.recipient_account_number account.account_number)) [
          | inl own ↦ rw own (closed.idle s.store)
          | inr other ↦ rw other (
              Reads-Keeps G closed (get_account_by_number p.recipient_account_number)
                (pay_to enc p c account key key_id n) s
                (get_account_by_number-Reads p.recipient_account_number s clean)
                (λ recipient s' clean'.
                  pay_to-Keeps p c account key key_id n recipient s'
                    (validate_payment_pos p c valid) clean'))
        ]

    create_payment-Keeps :
        (p : PaymentCreate) (account : Account) (key : String) (key_id n : ℕ) (s : Session)
        → IsClean s
        → Keeps G s.store (create_payment enc p account key key_id n s)
    unfolding create_payment
    create_payment-Keeps p account key key_id n s clean =
        pay_validated-Keeps p account key key_id n (validate_payment p) s refl clean

    pub payment_request-Keeps :
        (p : PaymentCreate) (user : User) (key : String) (key_id n : ℕ) (s : Session)
        → IsClean s
        → Keeps G s.store (payment_request enc p user key key_id n s)
    unfolding payment_request
    payment_request-Keeps p user key key_id n s clean =
        Reads-Keeps G closed (get_current_account user) (λ a. create_payment enc p a key key_id n) s
          (get_current_account-Reads user s clean)
          (λ a s' clean'. create_payment-Keeps p a key key_id n s' clean')

  -- Any request for a payment in a clean session, however it ends, keeps the funds of the bank, and no
  -- balance is negative after it if none was before.
  pub payment_request-IsSafe :
      (p : PaymentCreate) (user : User) (key : String) (key_id n : ℕ) (s : Session)
      → IsClean s
      → IsSafe s.store (payment_request enc p user key key_id n s)
  payment_request-IsSafe p user key key_id n s clean =
      payment_request-Keeps Safe Safe-Closed
        (λ k r x d entry m q positive clean'.
          Moves-IsSafe SameRecords (execute_payment k r x d entry m) q
            (execute_payment-Moves k r x d entry m q positive clean'))
        p user key key_id n s clean
