-- ===== src/Exceptions.antt =====
-- app/core/exceptions.py: the errors that are safe to show to a client, any other exception, and
-- the two handlers that turn them into a response.
mod Examples
pub mod Handlers
use fast_api_project.Prelude.{ℕ, String, Option, none, some, str_eq, if◌then◌else◌}

-- The subclasses of `AppError`.
pub data ErrorClass : Type 0 where
  invalid_credentials invalid_token invalid_api_key user_already_exists : ErrorClass
  rate_limit_exceeded model_unavailable prediction_not_found actual_already_recorded : ErrorClass

unfoldable pub status_code : ErrorClass → ℕ
status_code ErrorClass.invalid_credentials = 401
status_code ErrorClass.invalid_token = 401
status_code ErrorClass.invalid_api_key = 401
status_code ErrorClass.user_already_exists = 409
status_code ErrorClass.rate_limit_exceeded = 429
status_code ErrorClass.model_unavailable = 503
status_code ErrorClass.prediction_not_found = 404
status_code ErrorClass.actual_already_recorded = 409

unfoldable pub class_detail : ErrorClass → String
class_detail ErrorClass.invalid_credentials = "Invalid username or password"
class_detail ErrorClass.invalid_token = "Invalid or expired token"
class_detail ErrorClass.invalid_api_key = "Missing or invalid API key"
class_detail ErrorClass.user_already_exists = "Username is already taken"
class_detail ErrorClass.rate_limit_exceeded = "Too many requests"
class_detail ErrorClass.model_unavailable = "Prediction model is not available"
class_detail ErrorClass.prediction_not_found =
    "No such prediction. One made moments ago may not be recorded yet; retry shortly."
class_detail ErrorClass.actual_already_recorded =
    "A sale price is already recorded for this prediction"

pub record AppError : Type 0 where
  pub error_class : ErrorClass
  pub detail : String

-- `AppError.__init__`: `detail or self.detail`, where an empty text counts as missing.
unfoldable pub app_error : ErrorClass → Option String → AppError
unfolding class_detail
app_error c none = record { error_class = c; detail = class_detail c }
app_error c (some d) = record {
  error_class = c;
  detail = if str_eq d "" then class_detail c else d;
}

-- What a handler can raise. `unhandled` carries `str(exc)`, which must not reach a client;
-- `validation` is FastAPI's own rejection of a request, a 422.
pub data Exc : Type 0 where
  app : AppError → Exc
  validation : Exc
  integrity_error : Exc
  unhandled : String → Exc

pub data Result {ℓ} (A : Type ℓ) : Type ℓ where
  ok : A → Result A
  raise : Exc → Result A

infixl 5 ◌>>=◌ ◌>>◌
abbrev pub ◌>>=◌ {ℓ κ} : {A : Type ℓ} {B : Type κ} → Result A → (A → Result B) → Result B
ok a >>= f = f a
raise e >>= f = raise e

abbrev pub ◌>>◌ {ℓ} : {B : Type ℓ} → Result (Unit {0}) → Result B → Result B
m >> k = m >>= λ _. k

-- `raise InvalidTokenError()` and the like.
abbrev pub raise_app {ℓ} : {A : Type ℓ} → ErrorClass → Result A
raise_app c = raise (app (app_error c none))

-- `raise InvalidTokenError(detail)`.
abbrev pub raise_with {ℓ} : {A : Type ℓ} → ErrorClass → String → Result A
raise_with c d = raise (app (app_error c (some d)))

pub record Response : Type 0 where
  pub status : ℕ
  pub detail : String

-- The handlers that `register_exception_handlers` installs, and FastAPI's own for a rejected
-- request, whose body is left out.
unfoldable pub handle_exception : Exc → Response
unfolding status_code
handle_exception (app e) = record { status = status_code e.error_class; detail = e.detail }
handle_exception validation = record { status = 422; detail = "" }
handle_exception integrity_error = record { status = 500; detail = "Internal server error" }
handle_exception (unhandled message) = record { status = 500; detail = "Internal server error" }
