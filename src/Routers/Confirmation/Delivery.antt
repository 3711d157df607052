-- ===== src/Routers/Confirmation/Delivery.antt =====
-- What a delivery to the webhook does, its background task included.
use Prim.Native.String.{String}
use banking_payments_api.Prelude.{
  ℕ, ◌≡◌, refl, sym, ap, ◌∙◌, Option, none, some, [], true, false, inl, inr, arith, Bool,
}
use banking_payments_api.Prelude.Int.{pos, +ℤ_zero}
use banking_payments_api.Store.Models.{WebhookEvent}
use banking_payments_api.Store.Errors.{Outcome, ok, raise, integrity_error}
use banking_payments_api.Store.Schema.{event_error, any_row, same_event, fits}
use banking_payments_api.Store.Session.{
  Session, Action, pure, ◌>>=◌, >>=-of_ok, >>=-of_raise, Action-cases,
}
use banking_payments_api.Store.Session.Loading.{IsClean}
use banking_payments_api.Ledger.{funds}
use banking_payments_api.Ledger.Moves.{Moves, Moved, Frame, SameAccounts}
use banking_payments_api.Ledger.Composing.{Keeps, Closed, kept-Keeps}
use banking_payments_api.Store.Decimal.{Decimal}
use banking_payments_api.Schemas.{WebhookPaymentConfirmation}
use banking_payments_api.Webhooks.{handle_webhook_event, confirm, event_row, reserve_webhook_event}
use banking_payments_api.Webhooks.Handling.{handle_webhook_event-IsSafe, handle_webhook_event-Keeps}
use banking_payments_api.Webhooks.Events.{event_taken, reserve_webhook_event-Moves}
use banking_payments_api.Routers.Confirmation.{
  Gateway, verify_signature, validate_body, answer, accept, when_signed, payment_confirmation,
}

-- no condition on the rows
abbrev pub AnyRows : Frame
AnyRows _ _ = Unit

-- What moves nothing, followed by what keeps the funds, keeps the funds.
Moves-bind :
    {A B : Type 0} (R : Frame) (m : Action A) (f : A → Action B) (s : Session)
    → Moves R s.store (pos 0) (m s)
    → ((a : A) (s' : Session)
        → IsClean s'
        → (b : B) × (s'' : Session) × (f a s' ≡ (ok b, s'')) × Moved AnyRows s'.store (pos 0) s'')
    → Moves AnyRows s.store (pos 0) ((m >>= f) s)
Moves-bind R m f s moves rest = elim (Action-cases m s) [
  | inl (a, s', e) ↦
      let moved : Moved R s.store (pos 0) s' = rw e at moves in
      let (b, s'', ends, after) = rest a s' moved.clean in
      rw (>>=-of_ok m f e ∙ ends) (record {
        funds = after.funds ∙ (+ℤ_zero (funds s'.store) ∙ moved.funds);
        sound = λ h. after.sound (moved.sound h);
        frame = tt;
        clean = after.clean;
      })
  | inr (x, s', e) ↦ let same : s'.store ≡ s.store = rw e at moves in rw (>>=-of_raise m f e) same
]

module _ {Bytes : Type 0} (g : Gateway Bytes) where
  -- whatever the reservation says, an answer follows
  answered :
      (payload : WebhookPaymentConfirmation) (n : ℕ) (o : Option WebhookEvent) (s : Session)
      → IsClean s
      → (b : String) × (s' : Session) × (answer g payload n o s ≡ (ok b, s'))
        × Moved AnyRows s.store (pos 0) s'
  unfolding answer
  answered payload n none s clean = (
    "duplicate event, ignored",
    s,
    refl,
    record { funds = sym (+ℤ_zero (funds s.store)); sound = λ h. h; frame = tt; clean = clean },
  )
  answered payload n (some entry) s clean =
      let handle : Action (Unit {0}) =
        handle_webhook_event g.texts entry.id payload.event_type payload.transaction_id
          payload.amount n in
      let (ended, kept, sound, after) =
        handle_webhook_event-IsSafe g.texts entry.id payload.event_type payload.transaction_id
          payload.amount n s clean in
      (
        "accepted, processing",
        (handle s).1,
        >>=-of_ok {B = String} handle (λ _. pure "accepted, processing")
            (ap (λ r. (r, (handle s).1)) ended),
        record {
          funds = kept ∙ sym (+ℤ_zero (funds s.store));
          sound = sound;
          frame = tt;
          clean = after;
        },
      )

  accept-Moves :
      (body : Bytes) (r n : ℕ) (o : Option WebhookPaymentConfirmation) (s : Session)
      → IsClean s
      → Moves AnyRows s.store (pos 0) (accept g body r n o s)
  unfolding accept
  accept-Moves body r n none s clean = refl
  accept-Moves body r n (some payload) s clean =
      Moves-bind SameAccounts
        (reserve_webhook_event payload.event_id payload.event_type (g.decode body) r)
        (answer g payload n) s
        (reserve_webhook_event-Moves payload.event_id payload.event_type (g.decode body) r s
          clean.flushed clean)
        (λ o s' clean'. answered payload n o s' clean')

  signed-Moves :
      (body : Bytes) (r n : ℕ) (o : Outcome Bool) (s : Session)
      → IsClean s
      → Moves AnyRows s.store (pos 0) (when_signed g body r n o s)
  unfolding when_signed
  signed-Moves body r n (raise x) s clean = refl
  signed-Moves body r n (ok false) s clean = refl
  signed-Moves body r n (ok true) s clean = accept-Moves body r n (validate_body g body) s clean

  -- What every confirmation keeps, a delivery keeps.
  module _ (G : Frame) (closed : Closed G)
      (settles : (event_type : String) (k : ℕ) (amount : Decimal) (n : ℕ) (s : Session)
        → IsClean s
        → Keeps G s.store (confirm event_type k amount n s)) where
    answer-Keeps :
        (payload : WebhookPaymentConfirmation) (n : ℕ) (o : Option WebhookEvent) (s : Session)
        → IsClean s
        → Keeps G s.store (answer g payload n o s)
    unfolding answer
    answer-Keeps payload n none s clean = closed.idle s.store
    answer-Keeps payload n (some entry) s clean =
        let handle : Action (Unit {0}) =
          handle_webhook_event g.texts entry.id payload.event_type payload.transaction_id
            payload.amount n in
        let (ended, _, _, _) =
          handle_webhook_event-IsSafe g.texts entry.id payload.event_type payload.transaction_id
            payload.amount n s clean in
        rw
          (>>=-of_ok {B = String} handle (λ _. pure "accepted, processing")
            (ap (λ r. (r, (handle s).1)) ended))
          (handle_webhook_event-Keeps g.texts entry.id payload.event_type payload.transaction_id
            payload.amount n s G closed
            (settles payload.event_type payload.transaction_id payload.amount n s clean) clean)

    accept-Keeps :
        (body : Bytes) (r n : ℕ) (o : Option WebhookPaymentConfirmation) (s : Session)
        → IsClean s
        → Keeps G s.store (accept g body r n o s)
    unfolding accept
    accept-Keeps body r n none s clean = closed.idle s.store
    accept-Keeps body r n (some payload) s clean =
        kept-Keeps G closed
          (reserve_webhook_event payload.event_id payload.event_type (g.decode body) r)
          (answer g payload n) s
          (reserve_webhook_event-Moves payload.event_id payload.event_type (g.decode body) r s
            clean.flushed clean)
          (λ o s' clean'. answer-Keeps payload n o s' clean')

    signed-Keeps :
        (body : Bytes) (r n : ℕ) (o : Outcome Bool) (s : Session)
        → IsClean s
        → Keeps G s.store (when_signed g body r n o s)
    unfolding when_signed
    signed-Keeps body r n (raise x) s clean = closed.idle s.store
    signed-Keeps body r n (ok false) s clean = closed.idle s.store
    signed-Keeps body r n (ok true) s clean = accept-Keeps body r n (validate_body g body) s clean

    pub payment_confirmation-Keeps :
        (body : Bytes) (signature secret : String) (r n : ℕ) (s : Session)
        → IsClean s
        → Keeps G s.store (payment_confirmation g body signature secret r n s)
    unfolding payment_confirmation
    payment_confirmation-Keeps body signature secret r n s clean =
        signed-Keeps body r n (verify_signature g body signature secret) s clean

  module _ (body : Bytes) (signature secret : String) (r n : ℕ) (s : Session) where
    -- Any delivery in a clean session, its background task included, keeps the funds of the bank, and
    -- no balance is negative after it if none was before; the session is clean again. A delivery that
    -- raises has written nothing.
    pub payment_confirmation-Moves :
        IsClean s
        → Moves AnyRows s.store (pos 0) (payment_confirmation g body signature secret r n s)
    unfolding payment_confirmation
    payment_confirmation-Moves clean =
        signed-Moves body r n (verify_signature g body signature secret) s clean

    -- A delivery that is signed and valid, whose event id is stored already, writes nothing, if its
    -- texts fit their columns and the session has nothing to write: it is answered as a duplicate and
    -- no task runs.
    pub duplicate_ignored :
        (payload : WebhookPaymentConfirmation)
        → verify_signature g body signature secret ≡ ok true
        → validate_body g body ≡ some payload
        → fits 255 payload.event_id ≡ true
        → fits 50 payload.event_type ≡ true
        → any_row (same_event payload.event_id) s.store.webhook_events ≡ true
        → s.unflushed ≡ []
        → payment_confirmation g body signature secret r n s
          ≡ (ok "duplicate event, ignored", record s { identity_map = []; unflushed = [] })
    unfolding payment_confirmation when_signed accept answer
    duplicate_ignored payload signed valid short brief known clean =
        let refused : event_error s.store
              (event_row r payload.event_id payload.event_type (g.decode body) s.now)
            ≡ some integrity_error =
          unfold event_error in ground arith in
        let taken =
          event_taken payload.event_id payload.event_type (g.decode body) r s clean refused in
        ground arith
