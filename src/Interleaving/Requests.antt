-- ===== src/Interleaving/Requests.antt =====
-- The requests that may run at the same time, and what each does when nothing comes between.
use Prim.Native.String.{String}
use banking_payments_api.Prelude.{ℕ, List, map}
use banking_payments_api.Store.Models.{Database, User}
use banking_payments_api.Store.Session.{open_session}
use banking_payments_api.Schemas.{DepositCreate, PaymentCreate}
use banking_payments_api.Security.{Security}
use banking_payments_api.Cleanup.{run_cleanup_job}
use banking_payments_api.Routers.Transactions.{Encodings, deposit_request, payment_request}
use banking_payments_api.Routers.Confirmation.{Gateway, payment_confirmation}
use banking_payments_api.Routers.Auth.{
  UserCreate, register, login as login_route, refresh_token_endpoint, logout as logout_route,
}
use banking_payments_api.Interleaving.{Program, Thread}
use banking_payments_api.Interleaving.Programs
use banking_payments_api.Interleaving.Access

-- a request with the ids that it draws
pub data Request (Bytes : Type 0) : Type 0 where
  deposit : DepositCreate → User → ℕ → Request Bytes
  payment : PaymentCreate → User → String → ℕ → ℕ → Request Bytes
  delivery : Bytes → String → String → ℕ → ℕ → Request Bytes
  cleanup : Request Bytes
  registration : UserCreate → ℕ → ℕ → String → Request Bytes
  login : String → String → ℕ → ℕ → Request Bytes
  refresh : String → ℕ → ℕ → Request Bytes
  logout : String → Request Bytes

module _ (enc : Encodings) {Bytes : Type 0} (g : Gateway Bytes) (sec : Security) where
  -- a thread in a session of its own, opened at a time
  abbrev pub thread : {A : Type 0} → ℕ → Database → Program A → Thread
  thread {A} now db p = record { Answer = A; session = open_session now db; program = p }

  unfoldable pub start : Database → ℕ × Request Bytes → Thread
  start db (now, Request.deposit payload user n) = thread now db (Programs.deposit payload user n)
  start db (now, Request.payment payload user key key_id n) =
      thread now db (Programs.payment enc payload user key key_id n)
  start db (now, Request.delivery body signature secret r n) =
      thread now db (Programs.delivery g body signature secret r n)
  start db (now, Request.cleanup) = thread now db Programs.cleanup
  start db (now, Request.registration user_in user_id account_id number) =
      thread now db (Access.registration sec user_in user_id account_id number)
  start db (now, Request.login username password token_id jti) =
      thread now db (Access.login sec username password token_id jti)
  start db (now, Request.refresh token token_id jti) =
      thread now db (Access.refresh sec token token_id jti)
  start db (now, Request.logout token) = thread now db (Access.logout sec token)

  -- the committed rows after the handler, with no other request beside it
  unfoldable pub rows_after : Database → ℕ × Request Bytes → Database
  rows_after db (now, Request.deposit payload user n) =
      (deposit_request payload user n (open_session now db)).1.store
  rows_after db (now, Request.payment payload user key key_id n) =
      (payment_request enc payload user key key_id n (open_session now db)).1.store
  rows_after db (now, Request.delivery body signature secret r n) =
      (payment_confirmation g body signature secret r n (open_session now db)).1.store
  rows_after db (now, Request.cleanup) = run_cleanup_job now db
  rows_after db (now, Request.registration user_in user_id account_id number) =
      (register sec user_in user_id account_id number (open_session now db)).1.store
  rows_after db (now, Request.login username password token_id jti) =
      (login_route sec username password token_id jti (open_session now db)).1.store
  rows_after db (now, Request.refresh token token_id jti) =
      (refresh_token_endpoint sec token token_id jti (open_session now db)).1.store
  rows_after db (now, Request.logout token) = (logout_route sec token (open_session now db)).1.store

  abbrev pub threads : Database → List (ℕ × Request Bytes) → List Thread
  threads db requests = map (start db) requests
