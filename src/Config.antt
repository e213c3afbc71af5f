-- ===== src/Config.antt =====
-- `normalise_database_url` and `reject_placeholder` of app/core/config.py, and in a child its settings.
-- Python's URL functions are a parameter.
pub mod Urls
pub mod Settings
mod Examples
use fast_api_project.Prelude.{
  String, Bool, true, false, ◌||◌, Option, none, some, List, [], ◌∷◌, str_eq, if◌then◌else◌,
}

-- a URL in the five parts of `urlsplit`
pub record Parts : Type 0 where
  pub scheme : String
  pub netloc : String
  pub path : String
  pub query : String
  pub fragment : String

pub record UrlFunctions : Type 0 where
  pub urlsplit : String → Parts
  pub urlunsplit : Parts → String
  pub parse_qsl : String → List (String × String)
  pub urlencode : List (String × String) → String

abbrev pub async_driver : String
async_driver = "postgresql+asyncpg"

unfoldable pub driver_of : String → String
driver_of scheme =
    if str_eq scheme "postgres" || str_eq scheme "postgresql" then async_driver else scheme

-- The parameters of the query: `sslmode` is renamed, and those that only libpq knows are left out.
unfoldable pub translate : List (String × String) → List (String × String)
translate [] = []
translate ((key, value) ∷ query) =
    let rest = translate query in
    if str_eq key "channel_binding"
    then rest
    else if str_eq key "sslmode"
    then ("ssl", value) ∷ rest
    else (key, value) ∷ rest

module _ (urls : UrlFunctions) where
  abbrev pub rebuild : Parts → Parts
  rebuild parts = record parts {
    scheme = driver_of parts.scheme;
    query = urls.urlencode (translate (urls.parse_qsl parts.query));
  }

  -- the parts that the code puts together again
  unfoldable pub rewritten : String → Parts
  unfolding driver_of translate
  rewritten url = rebuild (urls.urlsplit url)

  unfoldable pub normalise_database_url : String → String
  unfolding rewritten
  normalise_database_url url =
      if str_eq (driver_of (urls.urlsplit url).scheme) async_driver
      then urls.urlunsplit (rewritten url)
      else url

abbrev pub placeholder_secrets : List String
placeholder_secrets = "secret" ∷ "changeme" ∷ "change-me" ∷ "password" ∷ "demo" ∷ "test" ∷ []

unfoldable pub is_listed : String → List String → Bool
is_listed s [] = false
is_listed s (t ∷ ts) = str_eq t s || is_listed s ts

-- `none` where the validator raises ValueError; `strip_lower` is `value.strip().lower()`
unfoldable pub reject_placeholder : (strip_lower : String → String) → String → Option String
unfolding is_listed
reject_placeholder strip_lower value =
    if is_listed (strip_lower value) placeholder_secrets then none else some value
