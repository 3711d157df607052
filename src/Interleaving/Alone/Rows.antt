-- ===== src/Interleaving/Alone/Rows.antt =====
-- The rows after a program that nothing interrupts are the rows after the handler.
use banking_payments_api.Prelude.{ℕ, ◌≡◌, ap}
use banking_payments_api.Store.Models.{Database}
use banking_payments_api.Store.Errors.{Outcome}
use banking_payments_api.Store.Session.{Session, open_session}
use banking_payments_api.Security.{Security}
use banking_payments_api.Routers.Transactions.{Encodings}
use banking_payments_api.Routers.Confirmation.{Gateway}
use banking_payments_api.Interleaving.{alone, facing}
use banking_payments_api.Interleaving.Requests.{Request, start, rows_after}
use banking_payments_api.Interleaving.Alone.{
  alone-deposit, alone-payment, alone-delivery, alone-cleanup,
}
use banking_payments_api.Interleaving.Alone.Access.{
  alone-registration, alone-login, alone-refresh, alone-logout,
}

store_of : {A : Type 0} {r r' : Outcome A × Session} → r ≡ r' → r.1.store ≡ r'.1.store
store_of e = ap (λ r. r.1.store) e

module _ (enc : Encodings) {Bytes : Type 0} (g : Gateway Bytes) (sec : Security) where
  pub alone_rows :
      (first db : Database) (r : ℕ × Request Bytes)
      → let t = start enc g sec first r in
        (alone t.program (facing t.session db)).1.store ≡ rows_after enc g sec db r
  unfolding start rows_after
  alone_rows first db (now, Request.deposit p user n) =
      store_of (alone-deposit p user n (open_session now db))
  alone_rows first db (now, Request.payment p user key key_id n) =
      store_of (alone-payment enc p user key key_id n (open_session now db))
  alone_rows first db (now, Request.delivery body signature secret r n) =
      store_of (alone-delivery g body signature secret r n (open_session now db))
  alone_rows first db (now, Request.cleanup) = alone-cleanup now db
  alone_rows first db (now, Request.registration user_in user_id account_id number) =
      store_of (alone-registration sec user_in user_id account_id number (open_session now db))
  alone_rows first db (now, Request.login username password token_id jti) =
      store_of (alone-login sec username password token_id jti (open_session now db))
  alone_rows first db (now, Request.refresh token token_id jti) =
      store_of (alone-refresh sec token token_id jti (open_session now db))
  alone_rows first db (now, Request.logout token) =
      store_of (alone-logout sec token (open_session now db))
