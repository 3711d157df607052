-- ===== src/Routers/Auth/Validation.antt =====
-- A request for a registration: the validation of app/schemas/user.py before the route, and the
-- response behind it. What `EmailStr` makes of a text, if it is an address, is a parameter.
use Prim.Native.String.{String, count}
use banking_payments_api.Prelude.{
  ℕ, ◌≤◌, ◌≡◌, Bool, ◌&&◌, leb, if◌then◌else◌, Option, none, some, Option-cases, inl, inr, arith,
}
use banking_payments_api.Store.Models.{User}
use banking_payments_api.Store.Errors.{ok, http_exception}
use banking_payments_api.Store.Session.{Session, Action, pure, throw, ◌>>=◌, Action-cases}
use banking_payments_api.Security.{Security}
use banking_payments_api.Routers.Auth.{UserCreate, register}

pub record UserOut : Type 0 where
  pub id : ℕ
  pub email : String
  pub full_name : String
  pub is_admin : Bool

abbrev pub user_out : User → UserOut
user_out u = record { id = u.id; email = u.email; full_name = u.full_name; is_admin = u.is_admin }

-- `Field(min_length=…, max_length=…)`
abbrev has_length : ℕ → ℕ → String → Bool
has_length low high s = leb low (count s) && leb (count s) high

module _ (email_of : String → Option String) (sec : Security) where
  unfoldable pub validate_user : UserCreate → Option UserCreate
  validate_user u = elim (email_of u.email) [
    | none ↦ none
    | some email ↦
        if has_length 8 72 u.password && has_length 1 255 u.full_name
        then some (record u { email = email })
        else none
  ]

  unfoldable pub register_validated : Option UserCreate → ℕ → ℕ → String → Action UserOut
  register_validated none _ _ _ = throw (http_exception 422 "Unprocessable Entity")
  register_validated (some u) user_id account_id number = do
    user ← register sec u user_id account_id number
    pure (user_out user)

  unfoldable pub register_request : UserCreate → ℕ → ℕ → String → Action UserOut
  register_request u user_id account_id number =
      register_validated (validate_user u) user_id account_id number

  -- A request that is answered has an address, a password of 8 to 72 characters and a name of 1 to
  -- 255, and the route has registered the user in the answer under that address.
  pub register_request-validates :
      (u : UserCreate) (user_id account_id : ℕ) (number : String) (s s' : Session) (r : UserOut)
      → register_request u user_id account_id number s ≡ (ok r, s')
      → (email : String) × (user : User) × (email_of u.email ≡ some email)
        × (8 ≤ count u.password)
        × (count u.password ≤ 72)
        × (1 ≤ count u.full_name)
        × (count u.full_name ≤ 255)
        × (register sec (record u { email = email }) user_id account_id number s ≡ (ok user, s'))
        × (r ≡ user_out user)
  unfolding register_request register_validated validate_user
  register_request-validates u user_id account_id number s s' r e =
      elim (Option-cases (email_of u.email)) [
        | inl wrong ↦ absurd (ground arith)
        | inr (email, address) ↦
            let valid : UserCreate = record u { email = email } in
            elim (Action-cases (register sec valid user_id account_id number) s) [
              | inl (user, s₁, registered) ↦ (
                email,
                user,
                address,
                ground arith,
                ground arith,
                ground arith,
                ground arith,
                ground arith,
                ground arith,
              )
              | inr (x, s₁, refused) ↦ absurd (ground arith)
            ]
      ]
