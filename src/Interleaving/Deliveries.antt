-- ===== src/Interleaving/Deliveries.antt =====
-- Deliveries to the webhook at the same time. The session of a delivery has loaded no account before
-- it locks the rows that it settles, so that its balances are the committed ones.
use Prim.Native.String.{String}
use mathlib.Core.Path.{subst}
use banking_payments_api.Prelude.{
  ℕ, ◌≡◌, refl, sym, ap, Option, none, some, List, [], ◌∷◌, inl, inr, Bool, true, false,
  Option-cases,
}
use banking_payments_api.Prelude.Int.{pos}
use banking_payments_api.Store.Models.{Database, WebhookEvent}
use banking_payments_api.Store.Decimal.{Decimal}
use banking_payments_api.Store.Errors.{Exc, Outcome, ok, raise}
use banking_payments_api.Store.Session.{
  Session, Action, open_session, rollback, Action-cases, ◌>>◌, pure, >>=-of_ok,
}
use banking_payments_api.Store.Session.Loading.{IsClean}
use banking_payments_api.Store.Schema.{event_error}
use banking_payments_api.Ledger.Moves.{Moved, Frame, SameRecords}
use banking_payments_api.Ledger.Composing.{Keeps, Closed}
use banking_payments_api.Schemas.{WebhookPaymentConfirmation}
use banking_payments_api.Webhooks.{error_text, confirm, event_row, reserve_webhook_event, on_error}
use banking_payments_api.Webhooks.Handling.{
  with_events, with_events-Moved, mark_webhook_processed-lem, record_webhook_error-lem,
  confirm-Moves,
}
use banking_payments_api.Webhooks.Events.{
  event_written, event_taken, event_refused, event_error-cases,
}
use banking_payments_api.Routers.Confirmation.{Gateway, validate_body, verify_signature}
use banking_payments_api.Interleaving.{last, facing}
use banking_payments_api.Interleaving.Programs.{
  attempt, concluded, answered, accepted, signed, delivery,
}
use banking_payments_api.Interleaving.Rule.{After, Keeping}

-- a session with nothing loaded and nothing to write
record IsFresh (s : Session) : Type 0 where
  nothing_loaded : s.identity_map ≡ []
  flushed : s.unflushed ≡ []

fresh-IsClean : (s : Session) → IsFresh s → IsClean s
fresh-IsClean s fresh = record {
  current = λ k l h. let e = rw fresh.nothing_loaded at h in cc;
  flushed = fresh.flushed;
}

module _ (G : Frame) (closed : Closed G) (base : Database) {Bytes : Type 0} (g : Gateway Bytes)
    (settles : (event_type : String) (k : ℕ) (amount : Decimal) (n : ℕ) (s : Session)
      → IsClean s
      → Keeps G s.store (confirm event_type k amount n s)) where
  -- written events, whatever the session has loaded
  with_events-kept :
      (s : Session) (events : List WebhookEvent)
      → G base s.store
      → G base (with_events s events).store
  with_events-kept s events h =
      let emptied : Session = record s { identity_map = []; unflushed = [] } in
      closed.after h (
        closed.kept (
          with_events-Moved emptied events
            (fresh-IsClean emptied (record { nothing_loaded = refl; flushed = refl }))))

  -- the last segment of a delivery
  abbrev last_segment : ℕ → Option Exc → Action String
  last_segment entry o = do concluded g entry o; pure "accepted, processing"

  concluded_writes :
      (entry : ℕ) (o : Option Exc) (s : Session)
      → s.unflushed ≡ []
      → (events : List WebhookEvent) × (concluded g entry o s ≡ (ok tt, with_events s events))
  unfolding concluded on_error
  concluded_writes entry none s flushed =
      let (events, marked) = mark_webhook_processed-lem entry s flushed in
      (events, ap (on_error g.texts entry) marked)
  concluded_writes entry (some x) s flushed =
      record_webhook_error-lem entry (error_text g.texts x) s flushed

  concluded-kept :
      (entry : ℕ) (o : Option Exc) (s : Session)
      → s.unflushed ≡ []
      → G base s.store
      → G base (last_segment entry o s).1.store
  concluded-kept entry o s flushed h =
      let (events, e) = concluded_writes entry o s flushed in
      subst (λ (r : Outcome String × Session). G base r.1.store)
        (sym (>>=-of_ok {B = String} (concluded g entry o) (λ _. pure "accepted, processing") e))
        (with_events-kept s events h)

  attempt-After :
      (event_type : String) (k : ℕ) (amount : Decimal) (n : ℕ) (s : Session)
      → IsClean s
      → G base s.store
      → After (G base) (λ _ s'. s'.unflushed ≡ []) (attempt (confirm event_type k amount n s))
  unfolding attempt rollback
  attempt-After event_type k amount n s clean h =
      elim (Action-cases (confirm event_type k amount n) s) [
        | inl (_, s', e) ↦
            let moved : Moved SameRecords s.store (pos 0) s' =
              rw e at (confirm-Moves event_type k amount n s clean) in
            let step : G s.store s'.store = rw e at (settles event_type k amount n s clean) in
            rw (e, attempt) (closed.after h step, moved.clean.flushed)
        | inr (x, s', e) ↦
            let step : G s.store s'.store = rw e at (settles event_type k amount n s clean) in
            rw (e, attempt) (closed.after h step, refl)
      ]

  answered-Keeping :
      (p : WebhookPaymentConfirmation) (n : ℕ) (o : Option WebhookEvent) (s : Session)
      → IsFresh s
      → Keeping (G base) (answered g p n o) s
  unfolding answered
  answered-Keeping p n none s fresh = λ db h. h
  answered-Keeping p n (some entry) s fresh = λ db h.
      let here : Session = facing s db in
      let clean =
        fresh-IsClean here
          (record { nothing_loaded = fresh.nothing_loaded; flushed = fresh.flushed }) in
      concluding (attempt (confirm p.event_type p.transaction_id p.amount n here))
        (attempt-After p.event_type p.transaction_id p.amount n here clean h)
    where
      concluding :
          (r : Outcome (Option Exc) × Session)
          → After (G base) (λ _ s'. s'.unflushed ≡ []) r
          → After (G base) (λ o. Keeping (G base) (last (last_segment entry.id o))) r
      concluding (ok o, s') (h', flushed) =
          (h', λ db' h''. concluded-kept entry.id o (facing s' db') flushed h'')
      concluding (raise x, s') h' = h'

  reserve-After :
      (event_id event_type text : String) (n : ℕ) (s : Session)
      → IsFresh s
      → G base s.store
      → After (G base) (λ _ s'. IsFresh s') (reserve_webhook_event event_id event_type text n s)
  reserve-After event_id event_type text n s fresh h =
      let row = event_row n event_id event_type text s.now in
      elim (Option-cases (event_error s.store row)) [
        | inl free ↦ rw (event_written event_id event_type text n s fresh.flushed free) (
          with_events-kept s (row ∷ s.store.webhook_events) h,
          record { nothing_loaded = fresh.nothing_loaded; flushed = refl },
        )
        | inr (x, refused) ↦ elim (event_error-cases s.store row x refused) [
          | inl taken ↦
              rw (event_taken event_id event_type text n s fresh.flushed (rw taken at refused))
                (h, record { nothing_loaded = refl; flushed = refl })
          | inr too_long ↦
              rw (event_refused event_id event_type text n s fresh.flushed (rw too_long at refused))
                h
        ]
      ]

  accepted-Keeping :
      (body : Bytes) (r n : ℕ) (o : Option WebhookPaymentConfirmation) (s : Session)
      → IsFresh s
      → Keeping (G base) (accepted g body r n o) s
  unfolding accepted
  accepted-Keeping body r n none s fresh = λ db h. h
  accepted-Keeping body r n (some p) s fresh = λ db h.
      answering (reserve_webhook_event p.event_id p.event_type (g.decode body) r (facing s db)) (
        reserve-After p.event_id p.event_type (g.decode body) r (facing s db)
          (record { nothing_loaded = fresh.nothing_loaded; flushed = fresh.flushed }) h)
    where
      answering :
          (q : Outcome (Option WebhookEvent) × Session)
          → After (G base) (λ _ s'. IsFresh s') q
          → After (G base) (λ o. Keeping (G base) (answered g p n o)) q
      answering (ok o, s') (h', fresh') = (h', answered-Keeping p n o s' fresh')
      answering (raise x, s') h' = h'

  signed-Keeping :
      (body : Bytes) (r n : ℕ) (o : Outcome Bool) (s : Session)
      → IsFresh s
      → Keeping (G base) (signed g body r n o) s
  unfolding signed
  signed-Keeping body r n (raise e) s fresh = λ db h. h
  signed-Keeping body r n (ok false) s fresh = λ db h. h
  signed-Keeping body r n (ok true) s fresh =
      accepted-Keeping body r n (validate_body g body) s fresh

  pub delivery-Keeping :
      (body : Bytes) (signature secret : String) (r n now : ℕ) (first : Database)
      → Keeping (G base) (delivery g body signature secret r n) (open_session now first)
  unfolding delivery
  delivery-Keeping body signature secret r n now first =
      signed-Keeping body r n (verify_signature g body signature secret) (open_session now first)
        (record { nothing_loaded = refl; flushed = refl })
