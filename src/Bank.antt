-- ===== src/Bank.antt =====
-- The bank as a whole: requests, deliveries and runs of the cleanup job one after the other, each in a
-- session of its own.
pub mod Bounds
use Prim.Native.String.{String}
use banking_payments_api.Prelude.{ℕ, ◌≡◌, refl, sym, ap, ◌∙◌, some}
use banking_payments_api.Prelude.Int.{ℤ, pos, pos_part, neg_part, ◌+ℤ◌, +ℤ_zero, int_laws}
use banking_payments_api.Store.Models.{Database, User}
use banking_payments_api.Store.Errors.{Exc, ok, raise}
use banking_payments_api.Store.Session.{Session, open_session}
use banking_payments_api.Store.Session.Loading.{open_session-IsClean}
use banking_payments_api.Ledger.{funds}
use banking_payments_api.Ledger.Sound.{IsSound}
use banking_payments_api.Ledger.Moves.{Moved, SameRecords}
use banking_payments_api.Ledger.Composing.{Moves-IsSafe}
use banking_payments_api.Schemas.{DepositCreate, PaymentCreate, TransactionOut, validate_deposit}
use banking_payments_api.Security.{Security}
use banking_payments_api.Cleanup.{run_cleanup_job}
use banking_payments_api.Cleanup.Expiry.{run_cleanup_job-IsSafe}
use banking_payments_api.Routers.Transactions.{Encodings, deposit_request, payment_request}
use banking_payments_api.Routers.Transactions.Money.{deposit_request-Moves, payment_request-IsSafe}
use banking_payments_api.Routers.Confirmation.{Gateway, payment_confirmation}
use banking_payments_api.Routers.Confirmation.Delivery.{AnyRows, payment_confirmation-Moves}
use banking_payments_api.Routers.Auth.{UserCreate, register}
use banking_payments_api.Routers.Auth.Registration.{registration_opens}

module _ (enc : Encodings) {Bytes : Type 0} (g : Gateway Bytes) (sec : Security) where
  -- One request, delivery or run from the rows before to the rows after, and the money that it brings
  -- into the bank.
  pub data Step (db : Database) : ℤ → Database → Type 0 where
    deposit :
        (p : DepositCreate) (c : ℤ) (user : User) (n now : ℕ) (t : TransactionOut) (s : Session)
        → validate_deposit p ≡ some c
        → deposit_request p user n (open_session now db) ≡ (ok t, s)
        → Step db c s.store
    deposit_refused :
        (p : DepositCreate) (c : ℤ) (user : User) (n now : ℕ) (x : Exc) (s : Session)
        → validate_deposit p ≡ some c
        → deposit_request p user n (open_session now db) ≡ (raise x, s)
        → Step db (pos 0) s.store
    payment :
        (p : PaymentCreate) (user : User) (key : String) (key_id n now : ℕ)
        → Step db (pos 0) (payment_request enc p user key key_id n (open_session now db)).1.store
    delivery :
        (body : Bytes) (signature secret : String) (r n now : ℕ)
        → Step db
            (pos 0)
            (payment_confirmation g body signature secret r n (open_session now db)).1.store
    cleanup : (now : ℕ) → Step db (pos 0) (run_cleanup_job now db)
    registration :
        (user_in : UserCreate) (user_id account_id : ℕ) (number : String) (now : ℕ) (u : User)
        (s : Session)
        → register sec user_in user_id account_id number (open_session now db) ≡ (ok u, s)
        → Step db (pos 0) s.store

  pub data Steps (db : Database) : ℤ → Database → Type 0 where
    stop : Steps db (pos 0) db
    step : {x y : ℤ} {mid db' : Database} → Steps db x mid → Step mid y db' → Steps db (x +ℤ y) db'

  Step-funds :
      {db db' : Database} {x : ℤ}
      → Step db x db'
      → (funds db' ≡ funds db +ℤ x) × (IsSound db → IsSound db')
  Step-funds {db} (deposit p c user n now t s valid e) =
      let s₀ = open_session now db in
      let moved : Moved SameRecords db c s =
        rw e at (deposit_request-Moves p c valid n user s₀ (open_session-IsClean now db)) in
      (moved.funds, moved.sound)
  Step-funds {db} (deposit_refused p c user n now x s valid e) =
      let s₀ = open_session now db in
      let same : s.store ≡ db =
        rw e at (deposit_request-Moves p c valid n user s₀ (open_session-IsClean now db)) in
      (ap funds same ∙ sym (+ℤ_zero (funds db)), λ h. rw same h)
  Step-funds {db} (payment p user key key_id n now) =
      let (kept, sound) =
        payment_request-IsSafe enc p user key key_id n (open_session now db)
          (open_session-IsClean now db) in
      (kept ∙ sym (+ℤ_zero (funds db)), sound)
  Step-funds {db} (delivery body signature secret r n now) =
      let (kept, sound) =
        Moves-IsSafe AnyRows (payment_confirmation g body signature secret r n)
          (open_session now db)
          (payment_confirmation-Moves g body signature secret r n (open_session now db)
            (open_session-IsClean now db)) in
      (kept ∙ sym (+ℤ_zero (funds db)), sound)
  Step-funds {db} (cleanup now) =
      let (kept, sound) = run_cleanup_job-IsSafe now db in (kept ∙ sym (+ℤ_zero (funds db)), sound)
  Step-funds {db} (registration user_in user_id account_id number now u s e) =
      let (_, _, kept, sound) =
        registration_opens sec user_in user_id account_id number (open_session now db) s u refl e in
      (kept ∙ sym (+ℤ_zero (funds db)), sound)

  -- Whatever requests for deposits that validate, requests for payments, deliveries, runs of the
  -- cleanup job and successful registrations follow one another, each in a session of its own: the
  -- funds of the bank have grown by exactly the deposits that succeeded, and no balance is negative
  -- and every amount positive if that was so at first.
  pub Steps-funds :
      {db db' : Database} {x : ℤ}
      → Steps db x db'
      → (funds db' ≡ funds db +ℤ x) × (IsSound db → IsSound db')
  Steps-funds {db} stop = (sym (+ℤ_zero (funds db)), λ h. h)
  Steps-funds {db} (step {x} {y} {mid} {db'} before last) =
      let (moved, sound) = Steps-funds before in
      let (moved', sound') = Step-funds last in
      (
        omega (
          int_laws,
          ap pos_part moved,
          ap neg_part moved,
          ap pos_part moved',
          ap neg_part moved',
        ),
        λ h. sound' (sound h),
      )
