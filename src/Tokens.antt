-- ===== src/Tokens.antt =====
-- app/core/security.py and the checks of app/core/dependencies.py: passwords, access tokens, the
-- operator's API key, and the caller's identity. bcrypt and JWT are parameters; times are in
-- seconds. A claim that is neither an int nor a text is `other`.
mod Examples
pub mod Checks
pub mod Spelled
use fast_api_project.Prelude.{
  ℕ, ◌+◌, ◌*◌, String, Bool, true, false, Option, none, some, List, [], ◌∷◌, str_eq, if◌then◌else◌,
}
use fast_api_project.Exceptions.{Result, ok, raise, ErrorClass, raise_app, raise_with, ◌>>=◌}

pub data Claim : Type 0 where
  missing other : Claim
  int : ℕ → Claim
  text : String → Claim

-- The payload of a token: the claims that the code reads.
pub record Claims : Type 0 where
  pub sub : Claim
  pub uid : Claim
  pub exp : ℕ

pub record Jwt : Type 0 where
  pub encode : Claims → (key algorithm : String) → String
  -- `none` where `jwt.decode` raises `JWTError`
  pub decode : (token key : String) (algorithms : List String) (now : ℕ) → Option Claims

-- `CryptContext`; a hash takes a salt.
pub record Passwords : Type 0 where
  pub hash : (password : String) (salt : ℕ) → String
  pub verify : (password hashed_password : String) → Bool

pub record TokenSettings : Type 0 where
  pub api_key : String
  pub jwt_secret_key : String
  pub jwt_algorithm : String
  pub access_token_expire_minutes : ℕ
  pub allow_public_registration : Bool

pub record Principal : Type 0 where
  pub id : ℕ
  pub username : String

-- The tests on the claims in `get_current_principal`.
unfoldable pub principal_from : (uid sub : Claim) → Result Principal
principal_from (int user_id) (text username) = ok (record { id = user_id; username = username })
principal_from (int user_id) _ = raise_app ErrorClass.invalid_token
principal_from _ _ = raise_app ErrorClass.invalid_token

-- The test on the claims in `get_current_user`.
unfoldable pub user_id_from : (uid : Claim) → Result ℕ
user_id_from (int user_id) = ok user_id
user_id_from _ = raise_app ErrorClass.invalid_token

-- `api_key.encode()` is one to one, so the comparison of the bytes is that of the texts.
unfoldable pub require_api_key : TokenSettings → Option String → Result String
require_api_key settings none = raise_app ErrorClass.invalid_api_key
require_api_key settings (some api_key) =
    if str_eq api_key ""
    then raise_app ErrorClass.invalid_api_key
    else if str_eq api_key settings.api_key
    then ok api_key
    else raise_app ErrorClass.invalid_api_key

unfoldable pub allow_registration : TokenSettings → Option String → Result (Unit {0})
unfolding require_api_key
allow_registration settings api_key =
    if settings.allow_public_registration
    then ok tt
    else (require_api_key settings api_key >>= λ _. ok tt)

module _ (jwt : Jwt) (settings : TokenSettings) where
  unfoldable pub create_access_token : String → ℕ → ℕ → String
  create_access_token subject user_id now =
      jwt.encode
        (record {
          sub = text subject;
          uid = int user_id;
          exp = now + settings.access_token_expire_minutes * 60;
        })
        settings.jwt_secret_key settings.jwt_algorithm

  unfoldable pub decode_access_token : String → ℕ → Option Claims
  decode_access_token token now =
      jwt.decode token settings.jwt_secret_key (settings.jwt_algorithm ∷ []) now

  -- `_claims`
  unfoldable pub claims : Option String → ℕ → Result Claims
  claims none now = raise_with ErrorClass.invalid_token "Missing bearer token"
  claims (some token) now = elim (decode_access_token token now) [
    | none ↦ raise_app ErrorClass.invalid_token
    | some payload ↦ ok payload
  ]

  unfoldable pub get_current_principal : Option String → ℕ → Result Principal
  get_current_principal credentials now = do
    payload ← claims credentials now
    principal_from payload.uid payload.sub
