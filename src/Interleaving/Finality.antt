-- ===== src/Interleaving/Finality.antt =====
-- What becomes of a transaction, whatever requests run at the same time.
use Prim.Native.String.{String}
use banking_payments_api.Prelude.{
  ℕ, ◌≡◌, refl, ap, ◌∙◌, some, List, true, inl, inr, ◌⊎◌, Bool-cases,
}
use banking_payments_api.Store.Tables.{find}
use banking_payments_api.Store.Models.{
  Database, Transaction, is_pending, transaction_id, account_id,
}
use banking_payments_api.Store.Session.{Session, Action-cases}
use banking_payments_api.Store.Session.Loading.{IsClean}
use banking_payments_api.Ledger.Composing.{Keeps, Closed}
use banking_payments_api.Book.{Entry, is_settlement}
use banking_payments_api.Book.View.{view, entry_of}
use banking_payments_api.Book.History.{run-Kept}
use banking_payments_api.Book.Following.{Follows, confirm-Follows}
use banking_payments_api.Security.{Security}
use banking_payments_api.Webhooks.{confirm}
use banking_payments_api.Store.Decimal.{Decimal}
use banking_payments_api.Routers.Transactions.{Encodings}
use banking_payments_api.Routers.Confirmation.{Gateway}
use banking_payments_api.Interleaving.{run}
use banking_payments_api.Interleaving.Requests.{Request, threads}
use banking_payments_api.Interleaving.Final.{Final, Final-trans, same-Final, entry_found}
use banking_payments_api.Book.View.{row_of}
use banking_payments_api.Interleaving.Changes.{entries}
use banking_payments_api.Interleaving.Deliveries.{delivery-Keeping}
use banking_payments_api.Interleaving.Together.{run-Watched}
use banking_payments_api.Interleaving.Sweeping.{cleanup-Keeping}

Final-Closed : Closed Final
Final-Closed = record {
  idle = λ db. same-Final db db refl;
  after = λ {a} {b} {c} p q. Final-trans a b c p q;
  kept = λ {db} {s'} moved. same-Final db s'.store moved.frame.entries;
}

Follows-Final : (db db' : Database) → Follows is_settlement db db' → Final db db'
unfolding view
Follows-Final db db' (cs, _, e) k entry there = run-Kept cs k entry (view db) (view db') there e

confirm-Final :
    (event_type : String) (k : ℕ) (amount : Decimal) (n : ℕ) (s : Session)
    → IsClean s
    → Keeps Final s.store (confirm event_type k amount n s)
confirm-Final event_type k amount n s clean =
    elim (Action-cases (confirm event_type k amount n) s) [
      | inl (u, s', e) ↦
          let follows : Follows is_settlement s.store s'.store =
            rw e at (confirm-Follows event_type k amount n s clean) in
          rw e (Follows-Final s.store s'.store follows)
      | inr (x, s', e) ↦
          let follows : Follows is_settlement s.store s'.store =
            rw e at (confirm-Follows event_type k amount n s clean) in
          rw e (Follows-Final s.store s'.store follows)
    ]

module _ (enc : Encodings) {Bytes : Type 0} (g : Gateway Bytes) (sec : Security) where
  run-Final :
      (first db : Database) (requests : List (ℕ × Request Bytes)) (schedule : List ℕ)
      → Final db (run schedule db (threads enc g sec first requests)).0
  run-Final first db requests schedule =
      run-Watched enc g sec (entries db)
        (λ body signature secret r n now start.
          delivery-Keeping Final Final-Closed db g
            (λ event_type k amount m s clean. confirm-Final event_type k amount m s clean) body
            signature secret r n now start)
        (λ now start. cleanup-Keeping db now start) first db requests schedule
        (same-Final db db refl)

  -- Any requests at the same time, each cut at its commits and at its queries without a lock, and any
  -- order in which their segments run: at every moment a transaction that was there is there, of the
  -- same account, to the same account and over the same amount, and its status is as it was unless it
  -- was pending.
  pub run-final :
      (first db : Database) (requests : List (ℕ × Request Bytes)) (schedule : List ℕ) (k : ℕ)
      (t : Transaction)
      → find k db.transactions ≡ some t
      → (t' : Transaction) × (find k
            (run schedule db (threads enc g sec first requests)).0.transactions
          ≡ some t')
        × (t'.account_id ≡ t.account_id)
        × (t'.related_account_id ≡ t.related_account_id)
        × (t'.amount ≡ t.amount)
        × ((is_pending t.status ≡ true) ⊎ (t'.status ≡ t.status))
  run-final first db requests schedule k t found =
      let db' = (run schedule db (threads enc g sec first requests)).0 in
      let (entry, there, later) =
        run-Final first db requests schedule k (entry_of t)
          (entry_found db.transactions k t found) in
      let (t', found', same) = row_of db'.transactions k entry there in
      (
        t',
        found',
        ap (λ (e : Entry). e.account) same ∙ later.account,
        ap (λ (e : Entry). e.related) same ∙ later.related,
        ap (λ (e : Entry). e.amount) same ∙ later.amount,
        elim (Bool-cases (is_pending t.status)) [
          | inl waiting ↦ inl waiting
          | inr settles ↦ inr (ap (λ (e : Entry). e.status) same ∙ later.final settles)
        ],
      )
