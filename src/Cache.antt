-- ===== src/Cache.antt =====
-- app/cache/redis_cache.py: the prediction cache, and the log of the Redis failures that the
-- service survives. JSON, SHA-256 and the decimal form of a number are parameters, and a price is
-- a value of an abstract type. Times are in milliseconds.
mod Examples
pub mod Errors
use Prim.Native.String
use fast_api_project.Prelude.{
  ℕ, zero, suc, ◌+◌, String, Bool, true, false, Option, none, some, List, [], ◌∷◌, leb,
  if◌then◌else◌,
}
use fast_api_project.Redis.{Reply, reply, redis_error, Redis}

-- The `operation` label of `redis_errors_total`.
pub data Operation : Type 0 where
  rate_limit cache_get cache_set : Operation

unfoldable pub same_operation : Operation → Operation → Bool
same_operation rate_limit rate_limit = true
same_operation cache_get cache_get = true
same_operation cache_set cache_set = true
same_operation _ _ = false

-- `REDIS_ERRORS`, `_last_error_logged`, and the lines written, newest first.
pub record ErrorLog : Type 0 where
  pub errors : Operation → ℕ
  pub last_logged : Operation → Option ℕ
  pub lines : List (Operation × ℕ)

-- `ERROR_LOG_INTERVAL_SECONDS`
abbrev pub error_log_interval : ℕ
error_log_interval = 30000

-- `now - last >= interval`, where a missing `last` is minus infinity
unfoldable pub due : Option ℕ → ℕ → Bool
due none now = true
due (some last) now = leb (last + error_log_interval) now

unfoldable pub record_redis_error : Operation → ℕ → ErrorLog → ErrorLog
unfolding same_operation due
record_redis_error op now log =
    let counted = record log {
      errors = λ o. if same_operation o op then log.errors o + 1 else log.errors o;
    } in
    if due (log.last_logged op) now
    then record counted {
      last_logged = λ o. if same_operation o op then some now else log.last_logged o;
      lines = (op, now) ∷ log.lines;
    }
    else counted

-- What the cache takes from Python's library: `json.dumps(features, sort_keys=True, …)`,
-- `sha256(…).hexdigest()`, `str` of an int, and the JSON of a cached price. `loads` is `none` where
-- the code catches ValueError, KeyError or TypeError.
pub record Encodings (Features Price : Type 0) : Type 0 where
  pub payload : Features → String
  pub sha256_hex : String → String
  pub decimal : ℕ → String
  pub dumps : Price → String
  pub loads : String → Option Price

-- `text[:n]`
unfoldable pub prefix : ℕ → String → String
prefix zero t = ""
prefix (suc n) String.[] = ""
prefix (suc n) (String.◌∷◌ c t) = String.◌∷◌ c (prefix n t)

-- `model_version or 0`
unfoldable pub version_or_zero : Option ℕ → ℕ
version_or_zero none = 0
version_or_zero (some v) = v

-- The client's state: the server and the error log.
pub record CacheState (S : Type 0) : Type 0 where
  pub server : S
  pub log : ErrorLog

module _ {Features Price : Type 0} (enc : Encodings Features Price) where
  unfoldable pub build_cache_key : Features → Option ℕ → String
  unfolding version_or_zero prefix
  build_cache_key features model_version = String.◌++◌ "prediction:v" (
      String.◌++◌ (enc.decimal (version_or_zero model_version))
        (String.◌++◌ ":" (prefix 32 (enc.sha256_hex (enc.payload features)))))

  -- what follows the GET: a missing key, or the text under it
  abbrev pub decode : Option String → Option Price
  decode none = none
  decode (some raw) = enc.loads raw

  module _ {S : Type 0} (redis : Redis S) where
    unfoldable pub get_cached_prediction : String → ℕ → CacheState S → Option Price × CacheState S
    get_cached_prediction key now c = elim (redis.get key now c.server) [
      | reply raw s ↦ (decode raw, record c { server = s })
      | redis_error s ↦ (none, record { server = s; log = record_redis_error cache_get now c.log })
    ]

    unfoldable pub set_cached_prediction : ℕ → String → Price → ℕ → CacheState S → CacheState S
    set_cached_prediction ttl key value now c =
        elim (redis.set key (enc.dumps value) ttl now c.server) [
          | reply _ s ↦ record c { server = s }
          | redis_error s ↦ record { server = s; log = record_redis_error cache_set now c.log }
        ]
