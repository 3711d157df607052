-- ===== src/Interleaving/Solvency.antt =====
-- The invariant of the money, whatever requests run at the same time.
use banking_payments_api.Prelude.{ℕ, List}
use banking_payments_api.Store.Models.{Database}
use banking_payments_api.Ledger.Sound.{IsSound}
use banking_payments_api.Security.{Security}
use banking_payments_api.Routers.Transactions.{Encodings}
use banking_payments_api.Routers.Confirmation.{Gateway, verify_signature}
use banking_payments_api.Interleaving.{run}
use banking_payments_api.Interleaving.Programs.{delivery}
use banking_payments_api.Interleaving.Requests.{Request, threads}
use banking_payments_api.Interleaving.Steady.{opened, signed-Steady, cleanup-Steady}
use banking_payments_api.Interleaving.Changes.{money}
use banking_payments_api.Interleaving.Programs.{delivery}
use banking_payments_api.Interleaving.Together.{run-Watched}

module _ (enc : Encodings) {Bytes : Type 0} (g : Gateway Bytes) (sec : Security) where
  -- Any requests at the same time, each cut at its commits and at its queries without a lock, and any
  -- order in which their segments run: if no balance is negative and every amount is positive at
  -- first, that is so of the rows at every moment.
  pub run-IsSound :
      (first db : Database) (requests : List (ℕ × Request Bytes)) (schedule : List ℕ)
      → IsSound db
      → IsSound (run schedule db (threads enc g sec first requests)).0
  run-IsSound first db requests schedule h =
      run-Watched enc g sec money
        (λ body signature secret r n now start.
          opened {w = money} now start (
            unfold delivery in signed-Steady g body r n (verify_signature g body signature secret)))
        (λ now start. opened {w = money} now start cleanup-Steady) first db requests schedule h
