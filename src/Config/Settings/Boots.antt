-- ===== src/Config/Settings/Boots.antt =====
-- Which environments boot an application of app/core/config.py.
use fast_api_project.Prelude.{ℕ, ◌≡◌, ◌↔◌, String, Bool, true, Option, some}
use mathlib.Core.Path.{subst}
use fast_api_project.Config.{UrlFunctions}
use fast_api_project.Config.Settings.{
  Settings, Checked, good, Readers, required, text_or, parsed_or, secret, use_the_async_driver,
  required_fields, service_fields, load, int_field, not_an_int, not_a_bool, settings_of,
}
use fast_api_project.Config.Settings.Fields.{
  <*>-good, IsGood, IsSecret, Parses, secret_iff, url-good, required-good, parsed_or_iff,
}

module _ (urls : UrlFunctions) (readers : Readers) (source : String → Option String) where
  abbrev api_key_field : Checked String
  api_key_field = secret urls readers "API_KEY" 8 (source "API_KEY")

  abbrev jwt_field : Checked String
  jwt_field = secret urls readers "JWT_SECRET_KEY" 32 (source "JWT_SECRET_KEY")

  abbrev url_field : Checked String
  url_field = use_the_async_driver urls readers (required "DATABASE_URL" (source "DATABASE_URL"))

  abbrev int_of : String → ℕ → Checked ℕ
  int_of = int_field urls readers source

  -- the values of the fields without defaults
  abbrev Required : String → String → String → String → Type 0
  Required api_key jwt_secret_key database_url redis_url =
      (api_key_field ≡ good api_key)
      × (jwt_field ≡ good jwt_secret_key)
      × (url_field ≡ good database_url)
      × (required "REDIS_URL" (source "REDIS_URL") ≡ good redis_url)

  required_fields-Required :
      (make : String → ℕ → Bool → String → String → String → ℕ → ℕ → ℕ → ℕ → ℕ → Settings)
      → required_fields urls readers source ≡ good make
      → (title api_key jwt url redis : String) × (settings_of title api_key jwt url redis ≡ make)
        × Required api_key jwt url redis
  unfolding required_fields
  required_fields-Required make h =
      let (g5, redis, h5, e5, i5) = <*>-good _ _ make h in
      let (g4, url, h4, e4, i4) = <*>-good _ _ g5 h5 in
      let (g3, jwt, h3, e3, i3) = <*>-good _ _ g4 h4 in
      let (g2, key, h2, e2, i2) = <*>-good _ _ g3 h3 in
      let (g1, title, h1, e1, i1) =
        <*>-good (good settings_of) (text_or "Car Price Prediction API" (source "PROJECT_NAME")) g2
          h2 in
      (title, key, jwt, url, redis, cc, (e2, e3, e4, e5))

  abbrev bool_of : Checked Bool
  bool_of =
      parsed_or readers.read_bool not_a_bool "ALLOW_PUBLIC_REGISTRATION" true
        (source "ALLOW_PUBLIC_REGISTRATION")

  service_fields-good :
      (make : ℕ → ℕ → ℕ → ℕ → ℕ → Settings)
      → service_fields urls readers source ≡ good make
      → (before : String → ℕ → Bool → String → String → String → ℕ → ℕ → ℕ → ℕ → ℕ → Settings)
        × (algorithm : String) × (minutes : ℕ) × (open_ : Bool) × (format path metadata : String)
        × (required_fields urls readers source ≡ good before)
        × (int_of "ACCESS_TOKEN_EXPIRE_MINUTES" 30 ≡ good minutes)
        × (bool_of ≡ good open_)
        × (before algorithm minutes open_ format path metadata ≡ make)
  unfolding service_fields
  service_fields-good make h =
      let (g6, metadata, h6, e6, i6) = <*>-good _ _ make h in
      let (g5, path, h5, e5, i5) = <*>-good _ _ g6 h6 in
      let (g4, format, h4, e4, i4) = <*>-good _ _ g5 h5 in
      let (g3, open_, h3, e3, i3) = <*>-good _ _ g4 h4 in
      let (g2, minutes, h2, e2, i2) = <*>-good _ _ g3 h3 in
      let (g1, algorithm, h1, e1, i1) = <*>-good _ _ g2 h2 in
      (g1, algorithm, minutes, open_, format, path, metadata, h1, e2, e3, cc)

  -- the environments that an application boots in
  abbrev pub IsBootable : Type 0
  IsBootable =
      ((key : String) × IsSecret readers 8 (source "API_KEY") key)
      × ((key : String) × IsSecret readers 32 (source "JWT_SECRET_KEY") key)
      × ((url : String) × (source "DATABASE_URL" ≡ some url))
      × ((url : String) × (source "REDIS_URL" ≡ some url))
      × Parses readers.read_int (source "ACCESS_TOKEN_EXPIRE_MINUTES")
      × Parses readers.read_bool (source "ALLOW_PUBLIC_REGISTRATION")
      × Parses readers.read_int (source "PREDICTION_CACHE_TTL_SECONDS")
      × Parses readers.read_int (source "RATE_LIMIT_REQUESTS")
      × Parses readers.read_int (source "RATE_LIMIT_WINDOW_SECONDS")
      × Parses readers.read_int (source "DB_POOL_SIZE")
      × Parses readers.read_int (source "DB_MAX_OVERFLOW")

  int_of_iff :
      (name : String) (default : ℕ)
      → IsGood (int_of name default) ↔ Parses readers.read_int (source name)
  int_of_iff name default = parsed_or_iff readers.read_int not_an_int name default (source name)

  -- the secrets of some settings are as the environment has them, and fit to be used
  abbrev pub HasSecrets : Settings → Type 0
  HasSecrets s =
      IsSecret readers 8 (source "API_KEY") s.api_key
      × IsSecret readers 32 (source "JWT_SECRET_KEY") s.jwt_secret_key

  secrets_of :
      (s t : Settings)
      → s ≡ t
      → IsSecret readers 8 (source "API_KEY") s.api_key
      → IsSecret readers 32 (source "JWT_SECRET_KEY") s.jwt_secret_key
      → HasSecrets t
  secrets_of s t e key jwt = subst HasSecrets e (key, jwt)

  pub load-good : (s : Settings) → load urls readers source ≡ good s → IsBootable × HasSecrets s
  unfolding load
  load-good s h =
      let (g5, overflow, h5, e5, i5) = <*>-good _ _ s h in
      let (g4, pool, h4, e4, i4) = <*>-good _ _ g5 h5 in
      let (g3, window, h3, e3, i3) = <*>-good _ _ g4 h4 in
      let (g2, requests, h2, e2, i2) = <*>-good _ _ g3 h3 in
      let (g1, ttl, h1, e1, i1) = <*>-good _ _ g2 h2 in
      let (before, algorithm, minutes, open_, format, path, metadata, b, m, o, i) =
        service_fields-good g1 h1 in
      let (title, key, jwt, url, redis, whole, (k, j, u, r)) = required_fields-Required before b in
      let key_secret = (secret_iff urls readers "API_KEY" 8 (source "API_KEY") key).0 k in
      let jwt_secret =
        (secret_iff urls readers "JWT_SECRET_KEY" 32 (source "JWT_SECRET_KEY") jwt).0 j in
      let (given, url_given, _) = url-good urls readers (source "DATABASE_URL") url u in
      (
        (
          (key, key_secret),
          (jwt, jwt_secret),
          (given, url_given),
          (redis, required-good "REDIS_URL" (source "REDIS_URL") redis r),
          (int_of_iff "ACCESS_TOKEN_EXPIRE_MINUTES" 30).0 (minutes, m),
          (parsed_or_iff readers.read_bool not_a_bool "ALLOW_PUBLIC_REGISTRATION" true
                (source "ALLOW_PUBLIC_REGISTRATION")).0
              (open_, o),
          (int_of_iff "PREDICTION_CACHE_TTL_SECONDS" 3600).0 (ttl, e1),
          (int_of_iff "RATE_LIMIT_REQUESTS" 60).0 (requests, e2),
          (int_of_iff "RATE_LIMIT_WINDOW_SECONDS" 60).0 (window, e3),
          (int_of_iff "DB_POOL_SIZE" 5).0 (pool, e4),
          (int_of_iff "DB_MAX_OVERFLOW" 10).0 (overflow, e5),
        ),
        secrets_of
            (settings_of title key jwt url redis algorithm minutes open_ format path metadata ttl
              requests window pool overflow)
            s (cc) key_secret jwt_secret,
      )
