-- ===== src/Auth.antt =====
-- app/services/auth_service.py: registration and login. bcrypt is a parameter, and a hash takes a
-- salt that the caller of the model supplies.
pub mod Accounts
mod Examples
use fast_api_project.Prelude.{ℕ, ◌*◌, String, Bool, true, false, Option, none, some, if◌then◌else◌}
use fast_api_project.Exceptions.{Result, ok, raise, raise_app, ErrorClass}
use fast_api_project.Exec.{M, resume, ◌>>=◌, pure, lift}
use fast_api_project.Tokens.{Jwt, Passwords, TokenSettings, create_access_token}
use fast_api_project.Users.{User, UserSession, get_by_username, create}

module _ (passwords : Passwords) (jwt : Jwt) (settings : TokenSettings) where
  -- what follows the query of `authenticate`; the hash of the dummy password is not used
  unfoldable pub token_for : Option User → (password : String) → ℕ → Result (String × ℕ)
  token_for none password now = raise_app ErrorClass.invalid_credentials
  token_for (some user) password now =
      if passwords.verify password user.hashed_password
      then ok (
        create_access_token jwt settings user.username user.id now,
        settings.access_token_expire_minutes * 60,
      )
      else raise_app ErrorClass.invalid_credentials

module _ {S : Type 0} (session : UserSession S) (passwords : Passwords) where
  unfoldable pub create_unless_taken : Option User → (username password : String) → ℕ → M S User
  create_unless_taken (some user) username password salt =
      lift (raise_app ErrorClass.user_already_exists)
  create_unless_taken none username password salt =
      create session username (passwords.hash password salt)

  unfoldable pub register : (username password : String) → ℕ → M S User
  unfolding create_unless_taken
  register username password salt = do
    found ← get_by_username session username
    create_unless_taken found username password salt

  unfoldable pub authenticate :
      Jwt → TokenSettings → (username password : String) → ℕ → M S (String × ℕ)
  unfolding token_for
  authenticate jwt settings username password now = do
    user ← get_by_username session username
    lift (token_for passwords jwt settings user password now)
