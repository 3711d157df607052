-- ===== src/Idempotency.antt =====
-- app/services/idempotency.py. The digest and the JSON text of a request come from hashlib and json,
-- which are parameters of the routers: here a request is known by its hash.
pub mod Keys
use Prim.Native.String.{String}
use banking_payments_api.Prelude.{ℕ, ◌+◌, ◌*◌, Option, none, some}
use banking_payments_api.Prelude.Lists.{select}
use banking_payments_api.Store.Tables.{find}
use banking_payments_api.Store.Models.{IdempotencyKey, idempotency_key_id}
use banking_payments_api.Store.Errors.{Outcome, ok, raise, integrity_error}
use banking_payments_api.Store.Schema.{insert_key, set_response, same_key}
use banking_payments_api.Store.Session.{
  Session, Action, pure, gets, scalar_one_or_none, ◌>>=◌, ◌>>◌, register, commit, rollback,
}

abbrev pub idempotency_key_ttl_hours : ℕ
idempotency_key_ttl_hours = 24

-- `compute_request_hash`: of the JSON text of the payload, its digest
unfoldable pub compute_request_hash :
    {Payload : Type 0} → (Payload → String) → (String → String) → Payload → String
compute_request_hash dumps sha256 payload = sha256 (dumps payload)

unfoldable pub get_existing_idempotency_key : ℕ → String → String → Action (Option IdempotencyKey)
get_existing_idempotency_key user_id key endpoint = do
  rows ← gets (λ s. select (same_key user_id key endpoint) s.store.idempotency_keys)
  scalar_one_or_none rows

-- the row that `reserve_idempotency_key` adds
abbrev pub key_row : ℕ → ℕ → String → String → String → ℕ → IdempotencyKey
key_row new_id user_id key endpoint request_hash now = record {
  id = new_id;
  key = key;
  user_id = user_id;
  endpoint = endpoint;
  request_hash = request_hash;
  status_code = none;
  response_body = none;
  created_at = now;
  expires_at = now + idempotency_key_ttl_hours * 3600;
}

-- `except IntegrityError: rollback; return None`, after a commit that was to return `entry`
unfoldable pub or_none :
    {A : Type 0} → A → Outcome (Unit {0}) × Session → Outcome (Option A) × Session
or_none entry (ok _, s) = (ok (some entry), s)
or_none entry (raise integrity_error, s) = (rollback >> pure none) s
or_none entry (raise e, s) = (raise e, s)

unfoldable pub reserve_idempotency_key :
    ℕ → String → String → String → ℕ → Action (Option IdempotencyKey)
reserve_idempotency_key user_id key endpoint request_hash new_id = do
  now ← gets (λ s. s.now)
  let entry = key_row new_id user_id key endpoint request_hash now
  register (insert_key entry)
  λ s. or_none entry (commit s)

unfoldable pub set_found : Option IdempotencyKey → ℕ → String → Action (Unit {0})
set_found none status_code response_body = pure tt
set_found (some entry) status_code response_body = do
  register (set_response entry.id status_code response_body)
  commit

unfoldable pub finalize_idempotency_key : ℕ → ℕ → String → Action (Unit {0})
unfolding set_found
finalize_idempotency_key entry_id status_code response_body = do
  found ← gets (λ s. find entry_id s.store.idempotency_keys)
  set_found found status_code response_body
