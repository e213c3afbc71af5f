-- ===== src/Routes/Accounts.antt =====
-- app/api/routes_auth.py, past the validation of its bodies. Times are in milliseconds for the
-- limiter, and in seconds for tokens.
use fast_api_project.Prelude.{ℕ, ◌/◌, String, Option}
use fast_api_project.Tokens.{Passwords, allow_registration}
use fast_api_project.RateLimit.{Request}
use fast_api_project.Schemas.{Credentials}
use fast_api_project.Users.{User, UserSession, get_current_user}
use fast_api_project.Auth
use fast_api_project.Exec.{M, ◌>>=◌, ◌>>◌, pure, lift}
use fast_api_project.Routes.World.{World, with_database, Guard, limited}

-- What a client sees of a user: not the hash.
pub record UserResponse : Type 0 where
  pub id : ℕ
  pub username : String
  pub created_at : ℕ

pub record TokenResponse : Type 0 where
  pub access_token : String
  pub token_type : String
  pub expires_in : ℕ

abbrev pub user_response : User → UserResponse
user_response user = record { id = user.id; username = user.username; created_at = user.created_at }

abbrev pub token_response : String × ℕ → TokenResponse
token_response (token, expires_in) = record {
  access_token = token;
  token_type = "bearer";
  expires_in = expires_in;
}

module _ {S R Row : Type 0} (g : Guard R) (session : UserSession S) (passwords : Passwords) where
  unfoldable pub register :
      Request → Option String → Credentials → (salt now : ℕ) → M (World S R Row) UserResponse
  register request api_key credentials salt now = do
    lift (allow_registration g.settings api_key)
    limited g request now
    user ←
        with_database
          (Auth.register session passwords credentials.username credentials.password salt)
    pure (user_response user)

  unfoldable pub login : Request → Credentials → ℕ → M (World S R Row) TokenResponse
  login request credentials now = do
    limited g request now
    answer ← with_database (
        Auth.authenticate session passwords g.jwt g.settings credentials.username
          credentials.password (now / 1000))
    pure (token_response answer)

  unfoldable pub me : Option String → ℕ → M (World S R Row) UserResponse
  me credentials now = do
    user ← with_database (get_current_user session g.jwt g.settings credentials (now / 1000))
    pure (user_response user)
