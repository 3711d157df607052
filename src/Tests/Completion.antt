-- ===== src/Tests/Completion.antt =====
-- The expiry at the small bank, a day later: Ana gets her money back.
use banking_payments_api.Prelude.Int.{◌+ℤ◌}
use banking_payments_api.Ledger.{funds, held_by}
use banking_payments_api.Store.Decimal.{fits_numeric}
use banking_payments_api.Prelude.{ℕ, ◌-◌, ◌*◌, ◌≡◌, refl, [], arith}
use banking_payments_api.Prelude.Lists.{select}
use banking_payments_api.Store.Errors.{ok}
use banking_payments_api.Store.Session.{Session, open_session}
use banking_payments_api.Store.Session.Loading.{IsClean, open_session-IsClean}
use banking_payments_api.Cleanup.{is_stale, expire_stale_pending_transactions, expired_description}
use banking_payments_api.Cleanup.Complete.{IsReady, expire_stale_pending_transactions_completes}
use banking_payments_api.Tests.Bank.{bank}

abbrev next_day : Session
next_day = open_session 90000 bank

bank-IsReady : IsReady bank
unfolding fits_numeric funds ◌+ℤ◌ held_by expired_description
bank-IsReady = record {
  sound = record { solvent = ground arith; positive = ground arith };
  bounded = refl;
  distinct = (tt, tt);
  senders = (refl, tt);
  room = (refl, tt);
}

expire_stale_pending_transactions_completes_example :
    (m : ℕ) × (s' : Session) × (expire_stale_pending_transactions next_day ≡ (ok m, s'))
    × (select (is_stale (90000 - 24 * 3600)) s'.store.transactions ≡ [])
    × IsClean s'
    × IsReady s'.store
expire_stale_pending_transactions_completes_example =
    expire_stale_pending_transactions_completes next_day (open_session-IsClean 90000 bank)
      bank-IsReady
