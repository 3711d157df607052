-- ===== src/Interleaving/Settlements.antt =====
-- What deliveries at the same time do to the money and to the book.
use Prim.Native.String.{String}
use banking_payments_api.Prelude.{ℕ, ◌≡◌, ◌≤◌, List, [], ◌∷◌, map, true, some}
use banking_payments_api.Prelude.Lists.{All}
use banking_payments_api.Store.Models.{Database}
use banking_payments_api.Store.Decimal.{Decimal}
use banking_payments_api.Store.Session.{Session}
use banking_payments_api.Store.Session.Loading.{IsClean}
use banking_payments_api.Ledger.{funds}
use banking_payments_api.Ledger.Sound.{IsSound}
use banking_payments_api.Ledger.Moves.{Frame, SameRecords}
use banking_payments_api.Ledger.Composing.{Keeps, Closed, Safe, Safe-Closed, Moves-IsSafe}
use banking_payments_api.Security.{Security}
use banking_payments_api.Webhooks.{confirm}
use banking_payments_api.Webhooks.Handling.{confirm-Moves}
use banking_payments_api.Routers.Transactions.{Encodings}
use banking_payments_api.Routers.Confirmation.{Gateway}
use banking_payments_api.Book.{Command, is_settlement, run as run_book}
use banking_payments_api.Book.View.{view}
use banking_payments_api.Book.Once.{reports, run_once}
use banking_payments_api.Store.Queries.{tally}
use banking_payments_api.Book.Following.{Follows, Follows-Closed, confirm-Follows}
use banking_payments_api.Interleaving.{Thread, run}
use banking_payments_api.Interleaving.Requests.{Request, start, threads}
use banking_payments_api.Interleaving.Rule.{KeptBy, run-Keeping}
use banking_payments_api.Interleaving.Deliveries.{delivery-Keeping}

-- a delivery: the bytes, the signature, the secret and the ids of the new rows
abbrev pub Delivery : Type 0 → Type 0
Delivery Bytes = Bytes × String × String × ℕ × ℕ

abbrev pub as_request : {Bytes : Type 0} → ℕ × Delivery Bytes → ℕ × Request Bytes
as_request (now, (body, signature, secret, r, n)) =
    (now, Request.delivery body signature secret r n)

module _ (enc : Encodings) {Bytes : Type 0} (g : Gateway Bytes) (sec : Security) where
  abbrev pub delivering : Database → List (ℕ × Delivery Bytes) → List Thread
  delivering first ds = threads enc g sec first (map as_request ds)

  delivering-KeptBy :
      (G : Frame) (closed : Closed G) (base first : Database)
      → ((event_type : String) (k : ℕ) (amount : Decimal) (n : ℕ) (s : Session)
          → IsClean s
          → Keeps G s.store (confirm event_type k amount n s))
      → (ds : List (ℕ × Delivery Bytes)) → All (KeptBy (G base)) (delivering first ds)
  unfolding start
  delivering-KeptBy G closed base first settles [] = tt
  delivering-KeptBy G closed base first settles ((now, (body, signature, secret, r, n)) ∷ ds) = (
    delivery-Keeping G closed base g settles body signature secret r n now first,
    delivering-KeptBy G closed base first settles ds,
  )

  delivering-Keeps :
      (G : Frame) (closed : Closed G) (first db : Database)
      → ((event_type : String) (k : ℕ) (amount : Decimal) (n : ℕ) (s : Session)
          → IsClean s
          → Keeps G s.store (confirm event_type k amount n s))
      → (ds : List (ℕ × Delivery Bytes)) (schedule : List ℕ)
      → G db (run schedule db (delivering first ds)).0
  delivering-Keeps G closed first db settles ds schedule =
      run-Keeping (G db) schedule db (delivering first ds)
        (delivering-KeptBy G closed db first settles ds) (closed.idle db)

  -- Any deliveries to the webhook at the same time, in any order of their segments: at every moment the
  -- funds of the bank are those of the start, and no balance is negative and every amount is positive
  -- if that was so at first.
  pub deliveries-Safe :
      (first db : Database) (ds : List (ℕ × Delivery Bytes)) (schedule : List ℕ)
      → let db' = (run schedule db (delivering first ds)).0 in
        (funds db' ≡ funds db) × (IsSound db → IsSound db')
  deliveries-Safe first db ds schedule =
      delivering-Keeps Safe Safe-Closed first db
        (λ event_type k amount n s clean.
          Moves-IsSafe SameRecords (confirm event_type k amount n) s
            (confirm-Moves event_type k amount n s clean))
        ds schedule

  -- Any deliveries to the webhook at the same time, in any order of their segments: at every moment the
  -- book is that of the start after a run of `confirm` and `cancel` commands, among which each payment
  -- is named once at most, however often it was reported.
  pub deliveries_settle_once :
      (first db : Database) (ds : List (ℕ × Delivery Bytes)) (schedule : List ℕ)
      → (cs : List Command) × (All (λ c. is_settlement c ≡ true) cs)
        × (run_book cs (view db) ≡ some (view (run schedule db (delivering first ds)).0))
        × ((k : ℕ) → tally (reports k) cs ≤ 1)
  deliveries_settle_once first db ds schedule =
      let (cs, settling, e) =
        delivering-Keeps (Follows is_settlement) (Follows-Closed is_settlement) first db
          confirm-Follows ds schedule in
      (cs, settling, e, λ k. run_once cs k (view db) _ e)
