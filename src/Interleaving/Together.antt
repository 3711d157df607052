-- ===== src/Interleaving/Together.antt =====
-- Requests of every kind at the same time keep what each of their segments keeps.
use Prim.Native.String.{String}
use banking_payments_api.Prelude.{ℕ, List, [], ◌∷◌}
use banking_payments_api.Prelude.Lists.{All}
use banking_payments_api.Store.Models.{Database}
use banking_payments_api.Security.{Security}
use banking_payments_api.Routers.Transactions.{Encodings}
use banking_payments_api.Routers.Confirmation.{Gateway}
use banking_payments_api.Interleaving.{run}
use banking_payments_api.Interleaving.Programs.{delivery}
use banking_payments_api.Interleaving.Access.{registration, login, refresh, logout}
use banking_payments_api.Interleaving.Requests.{Request, start, threads}
use banking_payments_api.Interleaving.Rule.{KeptBy, run-Keeping}
use banking_payments_api.Interleaving.Triples.{gets-Sound}
use banking_payments_api.Interleaving.Users.{
  user_with_email-Sound, create_user-Sound, authenticate-Sound, stored_token-Sound, revoke-Sound,
}
use banking_payments_api.Interleaving.Steady.{
  last-Steady, next-Steady, opened, deposit-Steady, payment-Steady, refresh_decoded-Steady,
}
use banking_payments_api.Store.Session.{open_session}
use banking_payments_api.Interleaving.Changes.{Watch, Watched}
use banking_payments_api.Interleaving.Rule.{Keeping}
use banking_payments_api.Interleaving.Programs.{delivery, cleanup}

module _ (enc : Encodings) {Bytes : Type 0} (g : Gateway Bytes) (sec : Security) (w : Watch)
    (delivers : (body : Bytes) (signature secret : String) (r n now : ℕ) (first : Database)
      → Keeping (Watched w) (delivery g body signature secret r n) (open_session now first))
    (cleans : (now : ℕ) (first : Database)
      → Keeping (Watched w) cleanup (open_session now first)) where
  start-KeptBy : (db : Database) (r : ℕ × Request Bytes) → KeptBy (Watched w) (start enc g sec db r)
  unfolding start
  start-KeptBy db (now, Request.deposit p u n) = opened {w = w} now db (deposit-Steady p u n)
  start-KeptBy db (now, Request.payment p u key key_id n) =
      opened {w = w} now db (payment-Steady enc p u key key_id n)
  start-KeptBy db (now, Request.delivery body signature secret r n) =
      delivers body signature secret r n now db
  start-KeptBy db (now, Request.cleanup) = cleans now db
  start-KeptBy db (now, Request.registration user_in user_id account_id number) =
      opened {w = w} now db (
        unfold registration in
        next-Steady (user_with_email-Sound user_in.email)
          (λ o. last-Steady (create_user-Sound sec user_in user_id account_id number o)))
  start-KeptBy db (now, Request.login username password token_id jti) = opened {w = w} now db (
      unfold login in
      next-Steady (user_with_email-Sound username)
        (λ o. last-Steady (authenticate-Sound sec password token_id jti o)))
  start-KeptBy db (now, Request.refresh token token_id jti) = opened {w = w} now db (
      unfold refresh in
      next-Steady (gets-Sound (λ s. s.now))
        (λ t. refresh_decoded-Steady sec token token_id jti (sec.decode_token token t)))
  start-KeptBy db (now, Request.logout token) = opened {w = w} now db (
      unfold logout in
      next-Steady (stored_token-Sound sec token) (λ o. last-Steady (revoke-Sound sec o)))

  threads-KeptBy :
      (db : Database) (requests : List (ℕ × Request Bytes))
      → All (KeptBy (Watched w)) (threads enc g sec db requests)
  threads-KeptBy db [] = tt
  threads-KeptBy db (r ∷ rs) = (start-KeptBy db r, threads-KeptBy db rs)

  -- what every segment keeps, the requests keep together
  pub run-Watched :
      (first db : Database) (requests : List (ℕ × Request Bytes)) (schedule : List ℕ)
      → Watched w db
      → Watched w (run schedule db (threads enc g sec first requests)).0
  run-Watched first db requests schedule h =
      run-Keeping (Watched w) schedule db (threads enc g sec first requests)
        (threads-KeptBy first requests) h
