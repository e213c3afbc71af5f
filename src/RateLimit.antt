-- ===== src/RateLimit.antt =====
-- app/core/rate_limit.py: fixed-window rate limiting. The counters are in Redis; `decimal` is
-- Python's `str` of an int and `lower` its `str.lower`. Times are in milliseconds for Redis and
-- the window, in seconds for tokens.
pub mod Clients
pub mod Window
pub mod Keys
pub mod Mixed
mod Examples
use Prim.Native.Nat.{zero}
use Prim.Native.String
use Prim.Native.Char.{code}
use fast_api_project.Prelude.{
  ℕ, suc, ◌+◌, ◌*◌, ◌/◌, String, Bool, true, false, not, ◌&&◌, Option, none, some, List, [], ◌∷◌,
  ltb, ◌==◌, str_eq, if◌then◌else◌,
}
use fast_api_project.Exceptions.{Exc, Result, ok, raise, raise_with, ErrorClass}
use fast_api_project.Redis.{Reply, reply, redis_error, Redis}
use fast_api_project.Cache.{CacheState, rate_limit, record_redis_error}
use fast_api_project.Tokens.{Claim, int, Claims, Jwt, TokenSettings, decode_access_token}

pub record Request : Type 0 where
  -- the header, empty if it is missing
  pub authorization : String
  pub client_host : Option String
  -- the template of the matched route, and the path of the URL
  pub route : Option String
  pub url_path : String

-- `text.partition(' ')`, without the separator
unfoldable pub partition_space : String → String × String
partition_space String.[] = ("", "")
partition_space (String.◌∷◌ c rest) =
    let (head, tail) = partition_space rest in
    if code c == b' ' then ("", rest) else (String.◌∷◌ c head, tail)

-- `client.host if client else "unknown"`
unfoldable pub host_of : Option String → String
host_of none = "unknown"
host_of (some host) = host

-- the identity that some claims verify
unfoldable pub verified_uid : Option Claims → Option ℕ
verified_uid none = none
verified_uid (some payload) = elim payload.uid [ int n ↦ some n | _ ↦ none ]

pub record Limits : Type 0 where
  pub rate_limit_requests : ℕ
  pub rate_limit_window_seconds : ℕ

-- `_route_path`
unfoldable pub route_path : Request → String
route_path request = elim request.route [ some path ↦ path | none ↦ request.url_path ]

unfoldable pub bucket_of : Limits → ℕ → ℕ
bucket_of limits now = now / (limits.rate_limit_window_seconds * 1000)

module _ (jwt : Jwt) (settings : TokenSettings) (lower : String → String)
    (decimal : ℕ → String) where
  -- the user whose token the header carries
  unfoldable pub bearer_uid : Request → ℕ → Option ℕ
  unfolding verified_uid
  bearer_uid request now =
      let (scheme, token) = partition_space request.authorization in
      if str_eq (lower scheme) "bearer" && not (str_eq token "")
      then verified_uid (decode_access_token jwt settings token (now / 1000))
      else none

  -- `_client_id`
  unfoldable pub client_id : Request → ℕ → String
  unfolding bearer_uid host_of
  client_id request now = elim (bearer_uid request now) [
    | some uid ↦ String.◌++◌ "user:" (decimal uid)
    | none ↦ String.◌++◌ "ip:" (host_of request.client_host)
  ]

  unfoldable pub rate_limit_key : Limits → Request → ℕ → String
  unfolding bucket_of route_path
  rate_limit_key limits request now = String.◌++◌ "ratelimit:" (
      String.◌++◌ (client_id request now) (
        String.◌++◌ ":"
          (String.◌++◌ (route_path request) (String.◌++◌ ":" (decimal (bucket_of limits now))))))

  limit_detail : Limits → String
  limit_detail limits = String.◌++◌ "Rate limit of " (
      String.◌++◌ (decimal limits.rate_limit_requests) (
        String.◌++◌ " requests per "
          (String.◌++◌ (decimal limits.rate_limit_window_seconds) "s exceeded")))

  module _ {S : Type 0} (redis : Redis S) (limits : Limits) where
    -- what follows the key
    unfoldable pub count_request : String → ℕ → CacheState S → Result (Unit {0}) × CacheState S
    unfolding limit_detail
    count_request key now c =
        elim (redis.incr_expire key (limits.rate_limit_window_seconds * 2) now c.server) [
          | redis_error s ↦
              (ok tt, record { server = s; log = record_redis_error rate_limit now c.log })
          | reply count s ↦ (
            if ltb limits.rate_limit_requests count
                then raise_with ErrorClass.rate_limit_exceeded (limit_detail limits)
                else ok tt,
            record c { server = s },
          )
        ]

    unfoldable pub enforce_rate_limit :
        Request → ℕ → CacheState S → Result (Unit {0}) × CacheState S
    enforce_rate_limit request now c = count_request (rate_limit_key limits request now) now c

    -- Requests one after another, each with its time.
    unfoldable pub enforce_all :
        List (Request × ℕ) → CacheState S → List (Result (Unit {0})) × CacheState S
    unfolding enforce_rate_limit
    enforce_all [] c = ([], c)
    enforce_all ((request, now) ∷ rest) c =
        let (verdict, c') = enforce_rate_limit request now c in
        let (verdicts, c'') = enforce_all rest c' in (verdict ∷ verdicts, c'')
