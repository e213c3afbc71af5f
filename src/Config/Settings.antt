-- ===== src/Config/Settings.antt =====
-- `Settings` and `get_settings` of app/core/config.py. A value of the environment or of `.env` is a text, as
-- pydantic finds it for a field, and its readers of ints and booleans are parameters; an int is a natural
-- number here. The errors are collected, as in a `ValidationError`.
pub mod Fields
pub mod Boots
pub mod Guards
use fast_api_project.Prelude.{
  ℕ, String, Bool, true, Option, none, some, List, [], ◌∷◌, ◌++◌, ltb, if◌then◌else◌,
}
use fast_api_project.Schemas.{text_length}
use fast_api_project.Config.{UrlFunctions, normalise_database_url, reject_placeholder}

pub record Settings : Type 0 where
  pub project_name : String
  pub api_key : String
  pub jwt_secret_key : String
  pub database_url : String
  pub redis_url : String
  pub jwt_algorithm : String
  pub access_token_expire_minutes : ℕ
  pub allow_public_registration : Bool
  pub log_format : String
  pub model_path : String
  pub model_metadata_path : String
  pub prediction_cache_ttl_seconds : ℕ
  pub rate_limit_requests : ℕ
  pub rate_limit_window_seconds : ℕ
  pub db_pool_size : ℕ
  pub db_max_overflow : ℕ

pub data Problem : Type 0 where
  missing too_short placeholder not_an_int not_a_bool : Problem

-- What a field's validation gives: its value, or its name with what is wrong.
pub data Checked {ℓ} (A : Type ℓ) : Type ℓ where
  good : A → Checked A
  bad : List (String × Problem) → Checked A

abbrev pub problems {ℓ} : {A : Type ℓ} → Checked A → List (String × Problem)
problems (good a) = []
problems (bad errors) = errors

-- One more argument of a constructor: the errors of all fields are reported together.
infixl 20 ◌<*>◌
unfoldable pub ◌<*>◌ {ℓ κ} : {A : Type ℓ} {B : Type κ} → Checked (A → B) → Checked A → Checked B
good f <*> good a = good (f a)
good f <*> bad errors = bad errors
bad errors <*> field = bad (errors ++ problems field)

-- pydantic's readers of a text, `none` where it refuses it; and `value.strip().lower()`
pub record Readers : Type 0 where
  pub read_int : String → Option ℕ
  pub read_bool : String → Option Bool
  pub strip_lower : String → String

-- a `str` without a default
abbrev pub required : String → Option String → Checked String
required name none = bad ((name, missing) ∷ [])
required name (some value) = good value

abbrev pub text_or : (default : String) → Option String → Checked String
text_or default none = good default
text_or default (some value) = good value

-- a field with a default, which is not validated
abbrev pub parsed_or {ℓ} :
    {A : Type ℓ} → (read : String → Option A) → Problem → String → A → Option String → Checked A
parsed_or read wrong name default none = good default
parsed_or read wrong name default (some value) = elim (read value) [
  | none ↦ bad ((name, wrong) ∷ [])
  | some a ↦ good a
]

-- what `reject_placeholder` makes of the field
abbrev pub accepted : (name : String) → Option String → Checked String
accepted name none = bad ((name, placeholder) ∷ [])
accepted name (some value) = good value

abbrev pub settings_of :
    String
    → String
    → String
    → String
    → String
    → String
    → ℕ
    → Bool
    → String
    → String
    → String
    → ℕ
    → ℕ
    → ℕ
    → ℕ
    → ℕ
    → Settings
settings_of project_name api_key jwt_secret_key database_url redis_url jwt_algorithm
      access_token_expire_minutes allow_public_registration log_format model_path
      model_metadata_path prediction_cache_ttl_seconds rate_limit_requests rate_limit_window_seconds
      db_pool_size db_max_overflow =
    record {
      project_name = project_name;
      api_key = api_key;
      jwt_secret_key = jwt_secret_key;
      database_url = database_url;
      redis_url = redis_url;
      jwt_algorithm = jwt_algorithm;
      access_token_expire_minutes = access_token_expire_minutes;
      allow_public_registration = allow_public_registration;
      log_format = log_format;
      model_path = model_path;
      model_metadata_path = model_metadata_path;
      prediction_cache_ttl_seconds = prediction_cache_ttl_seconds;
      rate_limit_requests = rate_limit_requests;
      rate_limit_window_seconds = rate_limit_window_seconds;
      db_pool_size = db_pool_size;
      db_max_overflow = db_max_overflow;
    }

module _ (urls : UrlFunctions) (readers : Readers) where
  -- `Field(min_length=n)`, and `reject_placeholder` where that holds
  unfoldable pub secret : (name : String) → (n : ℕ) → Option String → Checked String
  unfolding reject_placeholder text_length
  secret name n none = bad ((name, missing) ∷ [])
  secret name n (some value) =
      if ltb (text_length value) n
      then bad ((name, too_short) ∷ [])
      else accepted name (reject_placeholder readers.strip_lower value)

  -- `use_the_async_driver`
  abbrev pub use_the_async_driver : Checked String → Checked String
  use_the_async_driver (good value) = good (normalise_database_url urls value)
  use_the_async_driver (bad errors) = bad errors

  -- `Settings()`, where `source` finds the value of a field: the fields without defaults and the title,
  -- those of the service, and the numbers
  unfoldable pub required_fields :
      (source : String → Option String)
      → Checked (String → ℕ → Bool → String → String → String → ℕ → ℕ → ℕ → ℕ → ℕ → Settings)
  unfolding ◌<*>◌ secret
  required_fields source =
      good settings_of
      <*> text_or "Car Price Prediction API" (source "PROJECT_NAME")
      <*> secret "API_KEY" 8 (source "API_KEY")
      <*> secret "JWT_SECRET_KEY" 32 (source "JWT_SECRET_KEY")
      <*> use_the_async_driver (required "DATABASE_URL" (source "DATABASE_URL"))
      <*> required "REDIS_URL" (source "REDIS_URL")

  abbrev pub int_field : (source : String → Option String) → String → ℕ → Checked ℕ
  int_field source name default = parsed_or readers.read_int not_an_int name default (source name)

  unfoldable pub service_fields :
      (source : String → Option String) → Checked (ℕ → ℕ → ℕ → ℕ → ℕ → Settings)
  unfolding ◌<*>◌ required_fields
  service_fields source =
      required_fields source
      <*> text_or "HS256" (source "JWT_ALGORITHM")
      <*> int_field source "ACCESS_TOKEN_EXPIRE_MINUTES" 30
      <*> parsed_or readers.read_bool not_a_bool "ALLOW_PUBLIC_REGISTRATION" true
          (source "ALLOW_PUBLIC_REGISTRATION")
      <*> text_or "json" (source "LOG_FORMAT")
      <*> text_or "app/models/model.joblib" (source "MODEL_PATH")
      <*> text_or "app/models/model_metadata.json" (source "MODEL_METADATA_PATH")

  unfoldable pub load : (source : String → Option String) → Checked Settings
  unfolding ◌<*>◌ service_fields
  load source =
      service_fields source
      <*> int_field source "PREDICTION_CACHE_TTL_SECONDS" 3600
      <*> int_field source "RATE_LIMIT_REQUESTS" 60
      <*> int_field source "RATE_LIMIT_WINDOW_SECONDS" 60
      <*> int_field source "DB_POOL_SIZE" 5
      <*> int_field source "DB_MAX_OVERFLOW" 10

  -- `get_settings`, with what `lru_cache` holds; a call that raises leaves nothing in it.
  unfoldable pub get_settings :
      (source : String → Option String) → Option Settings → Checked Settings × Option Settings
  unfolding load
  get_settings source (some settings) = (good settings, some settings)
  get_settings source none = elim (load source) [
    | good settings ↦ (good settings, some settings)
    | bad errors ↦ (bad errors, none)
  ]
