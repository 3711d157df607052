-- ===== src/Webhooks/Events.antt =====
-- Reserving an event: what its unique column lets in, and what a taken event id answers.
use Prim.Native.String.{String}
use banking_payments_api.Prelude.{
  ℕ, ◌≡◌, refl, sym, ap, Option, none, some, [], ◌∷◌, inl, inr, arith, Option-cases, ◌⊎◌,
}
use banking_payments_api.Prelude.Int.{pos, +ℤ_zero}
use banking_payments_api.Store.Models.{Database, WebhookEvent}
use banking_payments_api.Store.Errors.{◌>>=◌ as ◌>>=ᵒ◌, Exc, ok, raise, integrity_error, data_error}
use banking_payments_api.Store.Schema.{unless, insert_event, event_error, apply, flush}
use banking_payments_api.Store.Session.{Session, commit, rollback}
use banking_payments_api.Store.Session.Loading.{IsClean}
use banking_payments_api.Ledger.{funds}
use banking_payments_api.Ledger.Moves.{Moves, SameAccounts, SameAccounts-refl}
use banking_payments_api.Idempotency.{or_none}
use banking_payments_api.Webhooks.{event_row, reserve_webhook_event}
use banking_payments_api.Webhooks.Handling.{with_events, with_events-Moved}

flush_event :
    (now : ℕ) (e : WebhookEvent) (db : Database) {o : Option Exc}
    → event_error db e ≡ o
    → flush now (insert_event e ∷ []) db
      ≡ unless o (record db { webhook_events = e ∷ db.webhook_events })
unfolding flush apply
flush_event now e db {o = none} h =
    ap (λ o. unless o (record db { webhook_events = e ∷ db.webhook_events }) >>=ᵒ ok) h
flush_event now e db {o = some x} h =
    ap (λ o. unless o (record db { webhook_events = e ∷ db.webhook_events }) >>=ᵒ ok) h

pub event_error-cases :
    (db : Database) (e : WebhookEvent) (x : Exc)
    → event_error db e ≡ some x
    → (x ≡ integrity_error) ⊎ (x ≡ data_error)
unfolding event_error
event_error-cases db e x h = ground arith

module _ (event_id event_type payload : String) (n : ℕ) (s : Session)
    (clean : s.unflushed ≡ []) where
  -- the row is written if the constraints allow it
  pub event_written :
      event_error s.store (event_row n event_id event_type payload s.now) ≡ none
      → reserve_webhook_event event_id event_type payload n s ≡ (
        ok (some (event_row n event_id event_type payload s.now)),
        with_events s (event_row n event_id event_type payload s.now ∷ s.store.webhook_events),
      )
  unfolding reserve_webhook_event or_none commit
  event_written e =
      ground (arith, flush_event s.now (event_row n event_id event_type payload s.now) s.store e)

  -- a taken event id: nothing is written, and the session is rolled back
  pub event_taken :
      event_error s.store (event_row n event_id event_type payload s.now) ≡ some integrity_error
      → reserve_webhook_event event_id event_type payload n s
        ≡ (ok none, record s { identity_map = []; unflushed = [] })
  unfolding reserve_webhook_event or_none commit rollback
  event_taken e =
      ground (arith, flush_event s.now (event_row n event_id event_type payload s.now) s.store e)

  -- a value that its column cannot hold: the exception is passed on
  pub event_refused :
      event_error s.store (event_row n event_id event_type payload s.now) ≡ some data_error
      → reserve_webhook_event event_id event_type payload n s ≡ (
        raise data_error,
        record s { unflushed = insert_event (event_row n event_id event_type payload s.now) ∷ [] },
      )
  unfolding reserve_webhook_event or_none commit
  event_refused e =
      ground (arith, flush_event s.now (event_row n event_id event_type payload s.now) s.store e)

  -- In a clean session, reserving an event moves no money and touches no account; a call that raises
  -- has written nothing.
  pub reserve_webhook_event-Moves :
      IsClean s
      → Moves SameAccounts s.store (pos 0) (reserve_webhook_event event_id event_type payload n s)
  reserve_webhook_event-Moves whole =
      elim (Option-cases (event_error s.store (event_row n event_id event_type payload s.now))) [
        | inl free ↦ rw (event_written free) (with_events-Moved s _ whole)
        | inr (x, refused) ↦ elim (event_error-cases s.store _ x refused) [
          | inl taken ↦ rw (event_taken (rw taken at refused)) (record {
            funds = sym (+ℤ_zero (funds s.store));
            sound = λ h. h;
            frame = SameAccounts-refl s.store;
            clean = record { current = λ j l h. cc; flushed = refl };
          })
          | inr too_long ↦ rw (event_refused (rw too_long at refused))
        ]
      ]
