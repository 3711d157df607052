-- ===== src/Interleaving/Answers.antt =====
-- The segments that catch exceptions, those that answer from stored rows, and the cleanup job.
use Prim.Native.String.{String}
use banking_payments_api.Prelude.{ℕ, ◌*◌, ◌-◌, ◌≡◌, not, Option, none, some, [], inl, inr}
use banking_payments_api.Prelude.Lists.{length, select}
use banking_payments_api.Store.Models.{IdempotencyKey}
use banking_payments_api.Store.Errors.{Exc, Outcome, ok, raise}
use banking_payments_api.Store.Schema.{
  delete_keys_before, delete_events_before, is_live, is_retained,
}
use banking_payments_api.Store.Session.{Session, Action, pure, rollback, Action-cases, ◌>>◌}
use banking_payments_api.Webhooks.{
  mark_webhook_processed, record_webhook_error, on_error, error_text,
}
use banking_payments_api.Cleanup.{
  cleanup_expired_idempotency_keys, cleanup_old_webhook_events, webhook_event_retention_days,
}
use banking_payments_api.Routers.Transactions.{Encodings, replay}
use banking_payments_api.Routers.Transactions.Money.{replay-session}
use banking_payments_api.Routers.Confirmation.{Gateway}
use banking_payments_api.Interleaving.Programs.{attempt, concluded, stale_ids}
use banking_payments_api.Interleaving.Rule.{After}
use banking_payments_api.Interleaving.Triples.{
  Fit, Sound, Anything, any-Sound, then-Sound, pure-Sound, gets-Sound, register-Sound, commit-Sound,
}
use banking_payments_api.Interleaving.Routes.{
  mark_webhook_processed-Sound, record_webhook_error-Sound,
}
use banking_payments_api.Interleaving.Changes.{Watch, Watched}

module _ {w : Watch} where
  -- an action that leaves its session as it found it
  quiet-Sound : {A : Type 0} (m : Action A) → ((s : Session) → (m s).1 ≡ s) → Sound w Anything m
  quiet-Sound m same = record {
    keeps = λ s h fit. elim (Action-cases m s) [
      | inl (a, s', e) ↦ let p : s' ≡ s = rw e at (same s) in rw (e, p) (h, (fit, tt))
      | inr (x, s', e) ↦ let p : s' ≡ s = rw e at (same s) in rw (e, p) h
    ];
  }

  pub replay-Sound :
      (enc : Encodings) (o : Option IdempotencyKey) (hash : String)
      → Sound w Anything (replay enc o hash)
  replay-Sound enc o hash = quiet-Sound (replay enc o hash) (replay-session enc o hash)

  -- A rollback leaves a fit session, and what is behind it keeps what is watched.
  pub rolled_back :
      {A : Type 0} (k : Action A) (s : Session)
      → Sound w Anything k
      → Watched w s.store
      → After (Watched w) (λ a s'. Fit w s' × Anything a) ((rollback >> k) s)
  unfolding rollback
  rolled_back k s sound h =
      sound.keeps (record s { identity_map = []; unflushed = [] }) h
        (record { loaded = tt; staged = tt })

  pub attempt-Sound :
      (m : Action (Unit {0})) → Sound w Anything m → Sound w Anything (λ s. attempt (m s))
  unfolding attempt
  attempt-Sound m sound = record { keeps = λ s h fit. caught (m s) (sound.keeps s h fit) }
    where
      caught :
          (r : Outcome (Unit {0}) × Session)
          → After (Watched w) (λ a s'. Fit w s' × Anything a) r
          → After (Watched w) (λ a s'. Fit w s' × Anything a) (attempt r)
      caught (ok _, s') after = after
      caught (raise e, s') after = rolled_back (pure (some e)) s' (pure-Sound (some e) tt) after

  pub concluded-Sound :
      {Bytes : Type 0} (g : Gateway Bytes) (k : ℕ) (o : Option Exc)
      → Sound w Anything (concluded g k o)
  unfolding concluded on_error
  concluded-Sound g k (some e) = record {
    keeps = λ s h fit. (record_webhook_error-Sound k (error_text g.texts e)).keeps s h fit;
  }
  concluded-Sound g k none = record {
    keeps = λ s h fit.
        caught (mark_webhook_processed k s) ((mark_webhook_processed-Sound k).keeps s h fit);
  }
    where
      caught :
          (r : Outcome (Unit {0}) × Session)
          → After (Watched w) (λ a s'. Fit w s' × Anything a) r
          → After (Watched w) (λ a s'. Fit w s' × Anything a) (on_error g.texts k r)
      caught (ok _, s') after = after
      caught (raise e, s') after =
          rolled_back (record_webhook_error k (error_text g.texts e)) s'
            (record_webhook_error-Sound k (error_text g.texts e)) after

  pub cleanup_expired_idempotency_keys-Sound : Sound w Anything cleanup_expired_idempotency_keys
  unfolding cleanup_expired_idempotency_keys
  cleanup_expired_idempotency_keys-Sound = any-Sound (gets-Sound (λ s. s.now)) (λ now.
      any-Sound
        (gets-Sound (λ s. length (select (λ k. not (is_live now k)) s.store.idempotency_keys)))
        (λ count.
          then-Sound (register-Sound (delete_keys_before now) tt)
            (then-Sound commit-Sound (pure-Sound count tt))))

  pub cleanup_old_webhook_events-Sound : Sound w Anything cleanup_old_webhook_events
  unfolding cleanup_old_webhook_events
  cleanup_old_webhook_events-Sound = any-Sound (gets-Sound (λ s. s.now)) (λ now.
      let cutoff = now - webhook_event_retention_days * 86400 in
      any-Sound
        (gets-Sound (λ s. length (select (λ e. not (is_retained cutoff e)) s.store.webhook_events)))
        (λ count.
          then-Sound (register-Sound (delete_events_before cutoff) tt)
            (then-Sound commit-Sound (pure-Sound count tt))))

  pub stale_ids-Sound : Sound w Anything stale_ids
  unfolding stale_ids
  stale_ids-Sound = record { keeps = λ s h fit. (h, (fit, tt)) }
