-- ===== src/Tests/Tokens.antt =====
-- Tokens that carry their user and their expiry as so many letters each, and what they admit.
use Prim.Native.Char.{code}
use Prim.Native.String.{String, [], ◌∷◌}
use text.Mathlib.Text.{◌==◌ as str_eq}
use text.Mathlib.TextPositions.{eq_refl}
use banking_payments_api.Prelude.{
  ℕ, zero, suc, ◌+◌, ◌≡◌, refl, some, ltb, ◌==◌, if◌then◌else◌, arith,
}
use banking_payments_api.Security.{Security, Decoded, payload, expired_signature, IsLawful}
use banking_payments_api.Tests.Auth.{security}

abbrev written : ℕ → ℕ → String
written zero zero = []
written zero (suc expire) = "e" ∷ written zero expire
written (suc user) expire = "u" ∷ written user expire

-- how often a letter occurs
abbrev letters : ℕ → String → ℕ
letters letter [] = 0
letters letter (c ∷ s) = (if code c == letter then 1 else 0) + letters letter s

letters_of_user : (user expire : ℕ) → letters 117 (written user expire) ≡ user
letters_of_user zero zero = refl
letters_of_user zero (suc expire) = omega (arith, letters_of_user zero expire)
letters_of_user (suc user) expire = omega (arith, letters_of_user user expire)

letters_of_expiry : (user expire : ℕ) → letters 101 (written user expire) ≡ expire
letters_of_expiry zero zero = refl
letters_of_expiry zero (suc expire) = omega (arith, letters_of_expiry zero expire)
letters_of_expiry (suc user) expire = omega (arith, letters_of_expiry user expire)

abbrev decoded : String → ℕ → Decoded
decoded token now =
    if ltb now (letters 101 token)
    then payload (record { type = some "access"; sub = some (letters 117 token) })
    else expired_signature

abbrev pub tokens : Security
tokens = record security {
  hash_password = λ p. p;
  verify_password = λ p h. str_eq h p;
  encode_access = λ user _ _ expire. written user expire;
  decode_token = decoded;
}

pub tokens-IsLawful : IsLawful tokens
tokens-IsLawful = record {
  verifies = λ p. eq_refl p;
  decodes = λ user _ issued expire now _ alive.
      rw (letters_of_user user expire, letters_of_expiry user expire) (ground arith);
  expires = λ user _ issued expire now late. rw (letters_of_expiry user expire) (ground arith);
}
