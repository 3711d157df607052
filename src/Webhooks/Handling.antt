-- ===== src/Webhooks/Handling.antt =====
-- `handle_webhook_event` as a whole: it catches every exception and records it on the event.
use Prim.Native.String.{String}
use text.Mathlib.Text.{◌==◌ as str_eq}
use mathlib.Core.Path.{subst}
use banking_payments_api.Prelude.{
  ℕ, ◌≡◌, refl, sym, ap, ◌∙◌, List, [], arith, inl, inr, Option-cases, Bool-cases,
}
use banking_payments_api.Prelude.Int.{pos, +ℤ_zero}
use banking_payments_api.Store.Tables.{find, update}
use banking_payments_api.Store.Models.{WebhookEvent, transaction_id, webhook_event_id}
use banking_payments_api.Store.Decimal.{Decimal}
use banking_payments_api.Store.Errors.{ok, raise, Exc}
use banking_payments_api.Store.Schema.{apply, flush, as_processed, with_error}
use banking_payments_api.Store.Session.{
  Session, commit, rollback, >>=-of_ok, >>=-of_raise, Action-cases,
}
use banking_payments_api.Store.Session.Loading.{IsClean}
use banking_payments_api.Ledger.{funds}
use banking_payments_api.Ledger.Moves.{Moves, Moved, Frame, SameRecords, SameAccounts}
use banking_payments_api.Ledger.Composing.{Keeps, Closed}
use banking_payments_api.Ledger.Sound.{IsSound}
use banking_payments_api.Webhooks.{
  Texts, error_text, mark_webhook_processed, record_webhook_error, confirm, on_error,
  handle_webhook_event,
}
use banking_payments_api.Webhooks.Settling.{
  process_payment_succeeded-Moves, process_payment_failed-Moves,
}

-- A session that has written nothing but webhook events.
abbrev pub with_events : Session → List WebhookEvent → Session
with_events s events = record s {
  store = record s.store { webhook_events = events };
  unflushed = [];
}

pub with_events-Moved :
    (s : Session) (events : List WebhookEvent)
    → IsClean s
    → Moved SameAccounts s.store (pos 0) (with_events s events)
unfolding funds
with_events-Moved s events clean = record {
  funds = sym (+ℤ_zero (funds s.store));
  sound = λ h. record { solvent = h.solvent; positive = h.positive };
  frame = record { accounts = refl; entries = refl };
  clean = record { current = clean.current; flushed = refl };
}

pub mark_webhook_processed-lem :
    (entry : ℕ) (s : Session)
    → s.unflushed ≡ []
    → (events : List WebhookEvent) × (mark_webhook_processed entry s
        ≡ (ok tt, with_events s events))
unfolding mark_webhook_processed commit flush apply
mark_webhook_processed-lem entry s clean = elim (Option-cases (find entry s.store.webhook_events)) [
  | inl absent ↦ (s.store.webhook_events, ground arith)
  | inr (e, found) ↦ (update entry as_processed s.store.webhook_events, ground arith)
]

pub record_webhook_error-lem :
    (entry : ℕ) (message : String) (s : Session)
    → s.unflushed ≡ []
    → (events : List WebhookEvent) × (record_webhook_error entry message s
        ≡ (ok tt, with_events s events))
unfolding record_webhook_error commit flush apply
record_webhook_error-lem entry message s clean =
    elim (Option-cases (find entry s.store.webhook_events)) [
      | inl absent ↦ (s.store.webhook_events, ground arith)
      | inr (e, found) ↦ (update entry (with_error message) s.store.webhook_events, ground arith)
    ]

pub confirm-Moves :
    (event_type : String) (k : ℕ) (amount : Decimal) (n : ℕ) (s : Session)
    → IsClean s
    → Moves SameRecords s.store (pos 0) (confirm event_type k amount n s)
unfolding confirm
confirm-Moves event_type k amount n s clean =
    elim (Bool-cases (str_eq event_type "payment.succeeded")) [
      | inl succeeded ↦ rw succeeded (process_payment_succeeded-Moves k n amount s clean)
      | inr failed ↦ rw failed (process_payment_failed-Moves k amount s clean)
    ]

module _ (str : Texts) (entry : ℕ) (event_type : String) (k : ℕ) (amount : Decimal) (n : ℕ)
    (s : Session) where
  handled_ok :
      {s' : Session}
      → confirm event_type k amount n s ≡ (ok tt, s')
      → s'.unflushed ≡ []
      → (events : List WebhookEvent) × (handle_webhook_event str entry event_type k amount n s
          ≡ (ok tt, with_events s' events))
  unfolding handle_webhook_event
  handled_ok {s'} e clean =
      let (events, marked) = mark_webhook_processed-lem entry s' clean in
      (
        events,
        ap (on_error str entry) (
            >>=-of_ok (confirm event_type k amount n) (λ _. mark_webhook_processed entry) e
            ∙ marked),
      )

  pub handled_error :
      {s' : Session} {x : Exc}
      → confirm event_type k amount n s ≡ (raise x, s')
      → (events : List WebhookEvent) × (handle_webhook_event str entry event_type k amount n s
          ≡ (ok tt, with_events (record s' { identity_map = [] }) events))
  unfolding handle_webhook_event rollback
  handled_error {s'} {x} e =
      let (events, recorded) =
        record_webhook_error-lem entry (error_text str x)
          (record s' { identity_map = []; unflushed = [] }) refl in
      (
        events,
        ap (on_error str entry)
              (>>=-of_raise (confirm event_type k amount n) (λ _. mark_webhook_processed entry) e)
            ∙ recorded,
      )

  -- Handling an event in a clean session never raises, whatever the services raise. The money stays
  -- in the bank: the funds are as before, no balance is negative if none was, and the session is
  -- clean again.
  pub handle_webhook_event-IsSafe :
      IsClean s
      → let (r, s') = handle_webhook_event str entry event_type k amount n s in
        (r ≡ ok tt)
        × (funds s'.store ≡ funds s.store)
        × (IsSound s.store → IsSound s'.store)
        × IsClean s'
  unfolding funds
  handle_webhook_event-IsSafe clean = elim (Action-cases (confirm event_type k amount n) s) [
    | inl (_, s', e) ↦
        let moved : Moved SameRecords s.store (pos 0) s' =
          rw e at (confirm-Moves event_type k amount n s clean) in
        let (events, handled) = handled_ok e moved.clean.flushed in
        rw handled (
          refl,
          moved.funds ∙ +ℤ_zero (funds s.store),
          λ h. record { solvent = (moved.sound h).solvent; positive = (moved.sound h).positive },
          record { current = moved.clean.current; flushed = refl },
        )
    | inr (x, s', e) ↦
        let same : s'.store ≡ s.store = rw e at (confirm-Moves event_type k amount n s clean) in
        let (events, handled) = handled_error e in
        rw handled (
          refl,
          ap funds same,
          λ h.
              let h' = subst IsSound (sym same) h in
              record { solvent = h'.solvent; positive = h'.positive },
          record { current = λ j l h. cc; flushed = refl },
        )
  ]

  -- What every confirmation keeps, the handling of an event keeps.
  pub handle_webhook_event-Keeps :
      (G : Frame)
      → Closed G
      → Keeps G s.store (confirm event_type k amount n s)
      → IsClean s
      → Keeps G s.store (handle_webhook_event str entry event_type k amount n s)
  handle_webhook_event-Keeps G closed settles clean =
      elim (Action-cases (confirm event_type k amount n) s) [
        | inl (_, s', e) ↦
            let moved : Moved SameRecords s.store (pos 0) s' =
              rw e at (confirm-Moves event_type k amount n s clean) in
            let before : G s.store s'.store = rw e at settles in
            let (events, handled) = handled_ok e moved.clean.flushed in
            rw handled (closed.after before (closed.kept (with_events-Moved s' events moved.clean)))
        | inr (x, s', e) ↦
            let before : G s.store s'.store = rw e at settles in
            let (events, handled) = handled_error e in
            let opened : Session = record s' { identity_map = []; unflushed = [] } in
            let fresh : IsClean opened = record { current = λ j l h. cc; flushed = refl } in
            rw handled (closed.after before (closed.kept (with_events-Moved opened events fresh)))
      ]
