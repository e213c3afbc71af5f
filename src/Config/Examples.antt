-- ===== src/Config/Examples.antt =====
-- Database URLs of app/core/config.py, one as a provider hands it out, and two environments.
use fast_api_project.Exceptions.{ok}
use fast_api_project.Schemas.{text_length}
use fast_api_project.Tokens.{require_api_key}
use fast_api_project.Config.Settings.{
  Settings, Readers, good, bad, missing, too_short, placeholder, not_an_int, ◌<*>◌, secret,
  required_fields, service_fields, load, get_settings,
}
use fast_api_project.Config.Settings.Fields.{IsSecret}
use fast_api_project.Config.Settings.Guards.{token_settings, require_api_key-load}
use fast_api_project.Prelude.{
  Option, false, some, ◌↔◌, ◌≡◌, refl, String, none, [], ◌∷◌, str_eq, if◌then◌else◌,
}
use fast_api_project.Config.{
  UrlFunctions, driver_of, translate, rewritten, normalise_database_url, is_listed,
  reject_placeholder,
}

abbrev pasted : String
pasted = "postgres://db/cars?sslmode=require&channel_binding=require"

abbrev stored : String
stored = "postgresql+asyncpg://db/cars?ssl=require"

-- Python's functions on these two URLs
abbrev urls : UrlFunctions
urls = record {
  urlsplit = λ url.
      if str_eq url pasted
      then record {
        scheme = "postgres";
        netloc = "db";
        path = "/cars";
        query = "sslmode=require&channel_binding=require";
        fragment = "";
      }
      else record {
        scheme = "postgresql+asyncpg";
        netloc = "db";
        path = "/cars";
        query = "ssl=require";
        fragment = "";
      };
  urlunsplit = λ parts. if str_eq parts.scheme "postgres" then pasted else stored;
  parse_qsl = λ query.
      if str_eq query "ssl=require"
      then ("ssl", "require") ∷ []
      else ("sslmode", "require") ∷ ("channel_binding", "require") ∷ [];
  urlencode = λ query. "ssl=require";
}

program : Unit {0}
unfolding driver_of translate rewritten normalise_database_url is_listed reject_placeholder
program = tt

normalised : normalise_database_url urls pasted ≡ stored
unfolding program
normalised = refl

rejected : reject_placeholder (λ s. s) "changeme" ≡ none
unfolding program
rejected = refl

-- readers that know the texts of these environments
abbrev readers : Readers
readers = record {
  read_int = λ text. if str_eq text "10" then some 10 else none;
  read_bool = λ text. if str_eq text "false" then some false else none;
  strip_lower = λ text. if str_eq text "ChangeMe" then "changeme" else text;
}

abbrev deployed : String → Option String
deployed name =
    if str_eq name "API_KEY"
    then some "a-long-operator-key"
    else if str_eq name "JWT_SECRET_KEY"
    then some "0123456789abcdef0123456789abcdef"
    else if str_eq name "DATABASE_URL"
    then some pasted
    else if str_eq name "REDIS_URL"
    then some "redis://cache"
    else if str_eq name "ALLOW_PUBLIC_REGISTRATION"
    then some "false"
    else none

abbrev careless : String → Option String
careless name =
    if str_eq name "API_KEY"
    then some "ChangeMe"
    else if str_eq name "JWT_SECRET_KEY"
    then some "short"
    else if str_eq name "DB_POOL_SIZE"
    then some "many"
    else none

abbrev deployed_settings : Settings
deployed_settings = record {
  project_name = "Car Price Prediction API";
  api_key = "a-long-operator-key";
  jwt_secret_key = "0123456789abcdef0123456789abcdef";
  database_url = stored;
  redis_url = "redis://cache";
  jwt_algorithm = "HS256";
  access_token_expire_minutes = 30;
  allow_public_registration = false;
  log_format = "json";
  model_path = "app/models/model.joblib";
  model_metadata_path = "app/models/model_metadata.json";
  prediction_cache_ttl_seconds = 3600;
  rate_limit_requests = 60;
  rate_limit_window_seconds = 60;
  db_pool_size = 5;
  db_max_overflow = 10;
}

settings_program : Unit {0}
unfolding program text_length ◌<*>◌ secret required_fields service_fields load get_settings
settings_program = tt

-- The settings are read once, and kept.
booted : get_settings urls readers deployed none ≡ (good deployed_settings, some deployed_settings)
unfolding settings_program
booted = refl

-- Every field that is wrong is reported, in the order of the class.
refused :
    load urls readers careless
    ≡ bad (
        ("API_KEY", placeholder)
        ∷ ("JWT_SECRET_KEY", too_short)
        ∷ ("DATABASE_URL", missing)
        ∷ ("REDIS_URL", missing)
        ∷ ("DB_POOL_SIZE", not_an_int)
        ∷ [])
unfolding settings_program
refused = refl

require_api_key-load_example :
    (require_api_key (token_settings deployed_settings) (some "a-long-operator-key")
      ≡ ok "a-long-operator-key")
    ↔ ((◌≡◌ {A = Option String} (some "a-long-operator-key") (some "a-long-operator-key"))
        × IsSecret readers 8 (deployed "API_KEY") "a-long-operator-key")
require_api_key-load_example =
    require_api_key-load urls readers deployed deployed_settings (some deployed_settings)
      (some "a-long-operator-key") "a-long-operator-key" booted
