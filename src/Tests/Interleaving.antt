-- ===== src/Tests/Interleaving.antt =====
-- Two deliveries of one event at the same time, and two deposits.
use Prim.Native.String.{String}
use banking_payments_api.Prelude.{
  ℕ, ◌≡◌, ◌≤◌, ◌⊎◌, refl, true, some, List, [], ◌∷◌, map, arith, if◌then◌else◌, ◌==◌,
}
use banking_payments_api.Prelude.Int.{ℤ, pos, ◌+ℤ◌}
use banking_payments_api.Prelude.Lists.{All}
use banking_payments_api.Store.Models.{
  Database, RefreshToken, Account, Transaction, is_pending, transaction_id,
}
use banking_payments_api.Store.Tables.{find}
use banking_payments_api.Store.Queries.{tally}
use banking_payments_api.Ledger.{funds}
use banking_payments_api.Ledger.Sound.{IsSound}
use banking_payments_api.Book.{Command, is_settlement, run as run_book}
use banking_payments_api.Book.View.{view}
use banking_payments_api.Book.Once.{reports}
use banking_payments_api.Store.Schema.{
  apply, flush, transaction_error, event_error, refresh_token_error,
}
use banking_payments_api.Store.Decimal.{cents, fits_numeric}
use banking_payments_api.Store.Session.{
  commit, rollback, select_account, select_one_account, assign_balance,
}
use banking_payments_api.Schemas.{validate_deposit, valid_amount, validate_event_type}
use banking_payments_api.Dependencies.{get_current_account}
use banking_payments_api.Payments.{execute_deposit}
use banking_payments_api.Idempotency.{or_none}
use banking_payments_api.Webhooks.{
  reserve_webhook_event, confirm, process_payment_succeeded, load_pending, checked,
  mark_webhook_processed, on_error, on_found, select_related,
}
use banking_payments_api.Routers.Transactions.{create_deposit}
use banking_payments_api.Routers.Confirmation.{is_ascii, verify_signature, validate_body}
use banking_payments_api.Interleaving.Programs.{
  deposit as deposit_program, delivery as delivery_program, signed, accepted, answered, attempt,
  concluded,
}
use banking_payments_api.Interleaving.{run, turn, advance}
use banking_payments_api.Interleaving.Requests.{Request, start, threads}
use banking_payments_api.Interleaving.Finality.{run-final}
use banking_payments_api.Interleaving.Solvency.{run-IsSound}
use banking_payments_api.Interleaving.Settlements.{
  Delivery, delivering, deliveries-Safe, deliveries_settle_once,
}
use banking_payments_api.Tests.Bank.{
  ana, sent, bank, deposit_of_25, payment_to_bob, encodings, gateway,
}
use banking_payments_api.Tests.Auth.{security, stored}
use banking_payments_api.Security.{Security, hash_token, create_access_token, create_refresh_token}
use banking_payments_api.Routers.Auth.{is_refresh, user_of, renew, issue, or_http}
use banking_payments_api.Interleaving.Access.{refresh, refresh_decoded, stored_token, owner}

-- before the event has arrived
abbrev quiet : Database
quiet = record bank { webhook_events = [] }

abbrev twice : List (ℕ × Delivery String)
twice =
    (300, ("body", "sha256=body", "secret", 41, 31))
    ∷ (300, ("body", "sha256=body", "secret", 42, 32))
    ∷ []

abbrev in_turn : List ℕ
in_turn = 0 ∷ 1 ∷ 0 ∷ 1 ∷ 0 ∷ []

abbrev mixed : List (ℕ × Request String)
mixed =
    (300, Request.deposit deposit_of_25 ana 33)
    ∷ (300, Request.payment payment_to_bob ana "k2" 21 34)
    ∷ (90000, Request.cleanup)
    ∷ []

abbrev in_circles : List ℕ
in_circles = 0 ∷ 1 ∷ 2 ∷ 0 ∷ 1 ∷ 2 ∷ 0 ∷ 1 ∷ 2 ∷ []

run-IsSound_example :
    IsSound (run in_circles bank (threads encodings gateway security bank mixed)).0
run-IsSound_example =
    run-IsSound encodings gateway security bank bank mixed in_circles
      (record { solvent = ground arith; positive = ground arith })

run-final_example :
    (t' : Transaction) × (find 30
        (run in_circles bank (threads encodings gateway security bank mixed)).0.transactions
      ≡ some t')
    × (t'.account_id ≡ 11)
    × (t'.related_account_id ≡ some 12)
    × (t'.amount ≡ pos 2500)
    × ((is_pending sent.status ≡ true) ⊎ (t'.status ≡ sent.status))
run-final_example = run-final encodings gateway security bank bank mixed in_circles 30 sent refl

deliveries-Safe_example :
    let db' = (run in_turn quiet (delivering encodings gateway security quiet twice)).0 in
    (funds db' ≡ funds quiet) × (IsSound quiet → IsSound db')
deliveries-Safe_example = deliveries-Safe encodings gateway security quiet quiet twice in_turn

deliveries_settle_once_example :
    (cs : List Command) × (All (λ c. is_settlement c ≡ true) cs)
    × (run_book cs (view quiet)
        ≡ some (view (run in_turn quiet (delivering encodings gateway security quiet twice)).0))
    × ((k : ℕ) → tally (reports k) cs ≤ 1)
deliveries_settle_once_example =
    deliveries_settle_once encodings gateway security quiet quiet twice in_turn

abbrev balances_of : Database → List ℤ
balances_of db = map (λ (a : Account). a.balance) db.accounts

settled_once_of_two :
    balances_of (run in_turn quiet (delivering encodings gateway security quiet twice)).0
    ≡ pos 7500 ∷ pos 2800 ∷ []
unfolding run turn advance start commit flush apply ◌+ℤ◌ fits_numeric transaction_error
    select_account assign_balance cents delivery_program signed accepted answered attempt concluded
    verify_signature is_ascii validate_body validate_event_type reserve_webhook_event or_none
    event_error confirm process_payment_succeeded load_pending checked mark_webhook_processed
    on_error on_found select_related rollback
settled_once_of_two = refl

-- of two deposits at the same time, the first is overwritten
two_deposits :
    balances_of
      (run (0 ∷ 1 ∷ 0 ∷ 0 ∷ []) bank (
        threads encodings gateway security bank (
          (300, Request.deposit deposit_of_25 ana 33)
          ∷ (300, Request.deposit deposit_of_25 ana 34)
          ∷ []))).0
    ≡ pos 10_000 ∷ pos 300 ∷ []
unfolding run turn advance start commit flush apply ◌+ℤ◌ fits_numeric transaction_error
    select_account assign_balance cents deposit_program get_current_account select_one_account
    create_deposit validate_deposit valid_amount execute_deposit
two_deposits = refl

abbrev racing : Security
racing = record security { encode_refresh = λ user jti time. if jti == 1 then "t2" else "t3" }

-- Two refreshes with one token at the same time both succeed: the token is read without a lock.
refreshed_twice :
    map
      (λ (t : RefreshToken). t.token_hash)
      (run
        (0 ∷ 0 ∷ 0 ∷ 1 ∷ 1 ∷ 1 ∷ 0 ∷ 0 ∷ [])
        (record bank { refresh_tokens = stored ∷ [] })
        (threads encodings gateway racing bank (
          (300, Request.refresh "t1" 51 1)
          ∷ (300, Request.refresh "t1" 52 2)
          ∷ []))).0.refresh_tokens
    ≡ "t3" ∷ "t2" ∷ "t1" ∷ []
unfolding run turn advance start refresh refresh_decoded is_refresh stored_token owner user_of renew
    issue hash_token or_http commit flush apply refresh_token_error create_refresh_token
    create_access_token
refreshed_twice = refl
