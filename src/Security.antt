-- ===== src/Security.antt =====
-- app/security.py. The password hash, the digest and the signed tokens come from passlib, hashlib and
-- PyJWT, which are parameters.
use Prim.Native.String.{String}
use banking_payments_api.Prelude.{ℕ, ◌+◌, ◌*◌, ◌≤◌, ◌<◌, ◌≡◌, Bool, true, Option, some}

-- what `jwt.decode` answers
pub record Payload : Type 0 where
  pub type : Option String
  pub sub : Option ℕ

pub data Decoded : Type 0 where
  payload : Payload → Decoded
  expired_signature invalid_token : Decoded

pub record Security : Type 0 where
  pub hash_password : String → String
  pub verify_password : String → String → Bool
  pub sha256 : String → String
  -- `jwt.encode` of an access token: user, is_admin, issued and expiring times
  pub encode_access : ℕ → Bool → ℕ → ℕ → String
  -- and of a refresh token: user, jti and expiring time
  pub encode_refresh : ℕ → ℕ → ℕ → String
  -- `decode_token` at a time
  pub decode_token : String → ℕ → Decoded
  pub access_token_expire_minutes : ℕ
  pub refresh_token_expire_days : ℕ

module _ (sec : Security) where
  unfoldable pub hash_token : String → String
  hash_token token = sec.sha256 token

  unfoldable pub create_access_token : ℕ → Bool → ℕ → String
  create_access_token user_id is_admin now =
      sec.encode_access user_id is_admin now (now + sec.access_token_expire_minutes * 60)

  -- the token, its hash and when it expires
  unfoldable pub create_refresh_token : ℕ → ℕ → ℕ → String × String × ℕ
  create_refresh_token user_id jti now =
      let expire = now + sec.refresh_token_expire_days * 86400 in
      let raw_token = sec.encode_refresh user_id jti expire in
      (raw_token, hash_token raw_token, expire)

-- What passlib and PyJWT promise: a password verifies against its own hash, and an access token
-- decodes to what was encoded from its issue until it expires.
pub record IsLawful (sec : Security) : Type 0 where
  pub verifies :
      (password : String) → sec.verify_password password (sec.hash_password password) ≡ true
  pub decodes :
      (user_id : ℕ) (is_admin : Bool) (issued expire now : ℕ)
      → issued ≤ now
      → now < expire
      → sec.decode_token (sec.encode_access user_id is_admin issued expire) now
        ≡ payload (record { type = some "access"; sub = some user_id })
  pub expires :
      (user_id : ℕ) (is_admin : Bool) (issued expire now : ℕ)
      → expire ≤ now
      → sec.decode_token (sec.encode_access user_id is_admin issued expire) now ≡ expired_signature
