-- ===== src/Routes/Operator.antt =====
-- What only the operator may do: the handlers of app/api that ask for the API key.
mod Examples
use fast_api_project.Prelude.{
  ℕ, ◌≡◌, ◌≢◌, refl, ◌∙◌, ap, String, Bool, true, false, Option, none, some, str_eq, eq_iff,
  if◌then◌else◌, arith,
}
use fast_api_project.Exceptions.{Result, ok, raise, raise_app, ErrorClass, ◌>>=◌}
use fast_api_project.Tokens.{TokenSettings, Passwords, require_api_key, allow_registration}
use fast_api_project.Tokens.Checks.{require_api_key_iff}
use fast_api_project.RateLimit.{Request}
use fast_api_project.Schemas.{Credentials}
use fast_api_project.Floats.{Floats}
use fast_api_project.Repository.{Engine}
use fast_api_project.Users.{UserSession}
use fast_api_project.Exec
use fast_api_project.Exec.{M, resume, lift}
use fast_api_project.Routes.World.{World, with_database, Guard, limited}
use fast_api_project.Routes.Actual
use fast_api_project.Routes.Actual.{ScoredPrediction}
use fast_api_project.Routes.Accounts.{UserResponse, register}

module _ {S R Row N : Type 0} (g : Guard R) (fl : Floats N) (engine : Engine N S) where
  -- `record_actual_price` with its two dependencies, in the order in which they run
  unfoldable pub guarded_actual_price :
      Request
      → Option String
      → (prediction_id : ℕ) → N
      → (now : ℕ) → M (World S R Row) (ScoredPrediction N)
  guarded_actual_price request api_key prediction_id actual_price now =
      Exec.◌>>=◌ (lift (require_api_key g.settings api_key)) λ _.
        Exec.◌>>◌ (limited g request now)
          (with_database (Actual.record_actual_price fl engine prediction_id actual_price))

  -- Without the operator's key a report of a sale price is refused as such, before anything else:
  -- no row, no counter and no queue changes.
  pub guarded_actual_price-refused :
      (request : Request) (api_key : Option String) (prediction_id : ℕ) (actual_price : N) (now : ℕ)
      (w : World S R Row)
      → g.settings.api_key ≢ ""
      → api_key ≢ some g.settings.api_key
      → guarded_actual_price request api_key prediction_id actual_price now w
        ≡ (raise_app ErrorClass.invalid_api_key, w)
  unfolding guarded_actual_price
  guarded_actual_price-refused request api_key prediction_id actual_price now w set_up wrong =
      let refused = (require_api_key_iff g.settings api_key set_up).1 wrong in rw refused

module _ {S R Row : Type 0} (g : Guard R) (session : UserSession S) (passwords : Passwords) where
  -- Where sign-up is closed, nobody without the operator's key creates an account: the request is
  -- refused for the key, before anything else, and nothing changes.
  pub register-closed :
      (request : Request) (api_key : Option String) (credentials : Credentials) (salt now : ℕ)
      (w : World S R Row)
      → g.settings.allow_public_registration ≡ false
      → g.settings.api_key ≢ ""
      → api_key ≢ some g.settings.api_key
      → register g session passwords request api_key credentials salt now w
        ≡ (raise_app ErrorClass.invalid_api_key, w)
  unfolding register allow_registration
  register-closed request api_key credentials salt now w closed set_up wrong =
      let refused = (require_api_key_iff g.settings api_key set_up).1 wrong in rw (closed, refused)
