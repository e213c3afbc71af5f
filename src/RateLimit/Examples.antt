-- ===== src/RateLimit/Examples.antt =====
-- The rate limiter of app/core/rate_limit.py over counters in memory, and the JWT stand-in that
-- other examples share: a token is signed by prefixing the key.
use fast_api_project.Prelude.{
  ℕ, zero, suc, ◌+◌, ◌≡◌, refl, ap, String, true, false, map, none, some, List, [], ◌∷◌, str_eq,
  eq_iff, if◌then◌else◌, arith,
}
use fast_api_project.Redis.{Redis, reply, redis_error, IsCounter}
use fast_api_project.Cache.{CacheState}
use fast_api_project.Tokens.{text, int, Jwt, TokenSettings, decode_access_token}
use fast_api_project.RateLimit.{
  Request, Limits, partition_space, host_of, verified_uid, bearer_uid, client_id, bucket_of,
  rate_limit_key, route_path, count_request, enforce_rate_limit, enforce_all,
}
use fast_api_project.RateLimit.Window.{is_ok}
use fast_api_project.Texts.{has_colon}
use fast_api_project.RateLimit.Mixed.{enforce_all-admitted}

-- a number in unary, which tells numbers apart
tally : ℕ → String
tally zero = ""
tally (suc n) = String.◌∷◌ "1" (tally n)

tally_inj : (a b : ℕ) → tally a ≡ tally b → a ≡ b
unfolding tally
tally_inj zero zero e = refl
tally_inj zero (suc b) e = cc
tally_inj (suc a) zero e = cc
tally_inj (suc a) (suc b) e = ap suc (tally_inj a b (cc))

-- one user's token, and nothing else, decodes
abbrev jwt : Jwt
jwt = record {
  encode = λ payload key algorithm. "good";
  decode = λ token key algorithms now.
      if str_eq token "good"
      then some (record { sub = text "asha"; uid = int 7; exp = 1800 })
      else none;
}

abbrev settings : TokenSettings
settings = record {
  api_key = "operator-key";
  jwt_secret_key = "secret";
  jwt_algorithm = "HS256";
  access_token_expire_minutes = 30;
  allow_public_registration = true;
}

abbrev lower : String → String
lower s = if str_eq s "Bearer" then "bearer" else s

abbrev signed : Request
signed = record {
  authorization = "Bearer good";
  client_host = some "10.0.0.1";
  route = some "/predict";
  url_path = "/predict";
}

abbrev forged : Request
forged = record signed { authorization = "Bearer bad" }

program : Unit {0}
unfolding partition_space bearer_uid client_id rate_limit_key enforce_all enforce_rate_limit
    count_request verified_uid host_of decode_access_token tally
program = tt

forged-client : client_id jwt settings lower tally forged 0 ≡ "ip:10.0.0.1"
unfolding program
forged-client = refl

-- counters that never expire, as a function of the key
abbrev Counters : Type 0
Counters = String → ℕ

abbrev counting : Redis Counters
counting = record {
  get = λ key now s. redis_error s;
  set = λ key value seconds now s. redis_error s;
  incr_expire =
      λ key seconds now s. reply (s key + 1) (λ j. if str_eq j key then s key + 1 else s j);
}

counting-IsCounter : IsCounter counting (λ s k t. s k)
counting-IsCounter = record {
  incr_reply = λ k seconds now s. (
    λ j. if str_eq j k then s k + 1 else s j,
    refl,
    (λ t _ _. ground (arith, eq_iff k k)),
    (λ j t other. ground (arith, eq_iff j k)),
  );
}

abbrev limits : Limits
limits = record { rate_limit_requests = 2; rate_limit_window_seconds = 60 }

abbrev quiet : CacheState Counters
quiet = record {
  server = λ k. 0;
  log = record { errors = λ op. 0; last_logged = λ op. none; lines = [] };
}

tally-plain : (n : ℕ) → has_colon (tally n) ≡ false
unfolding tally has_colon
tally-plain zero = refl
tally-plain (suc n) = tally-plain n

-- a user and a stranger take turns, over two windows
abbrev mixed : List (Request × ℕ)
mixed =
    (signed, 1000)
    ∷ (forged, 1001)
    ∷ (signed, 1002)
    ∷ (signed, 1003)
    ∷ (forged, 59999)
    ∷ (signed, 60000)
    ∷ []

enforce_all-admitted_example :
    map is_ok (enforce_all jwt settings lower tally counting limits mixed quiet).0
    ≡ true ∷ true ∷ true ∷ false ∷ true ∷ true ∷ []
unfolding program bucket_of route_path
enforce_all-admitted_example =
    enforce_all-admitted jwt settings lower tally limits counting (λ s k t. s k) mixed 1000 quiet
      counting-IsCounter (omega arith) tally-plain tally_inj (λ k t. refl)
      (omega arith, (omega arith, (omega arith, (omega arith, (omega arith, (omega arith, tt))))))
