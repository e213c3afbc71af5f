-- ===== src/Routes/Stub.antt =====
-- A guard for examples of the handlers of app/api: Redis is down, and tokens spell their claims.
use fast_api_project.Prelude.{ℕ, ◌+◌, ◌-◌, ◌*◌, ◌/◌, String, none, [], leb}
use fast_api_project.Floats.{Floats}
use fast_api_project.Redis.{Redis, redis_error}
use fast_api_project.Cache.{CacheState}
use fast_api_project.RateLimit.{Request}
use fast_api_project.Tokens.Spelled.{jwt, settings}
use fast_api_project.Routes.World.{Guard}

abbrev pub unreachable : Redis (Unit {0})
unreachable = record {
  get = λ key now s. redis_error s;
  set = λ key value seconds now s. redis_error s;
  incr_expire = λ key seconds now s. redis_error s;
}

abbrev pub guard : Guard (Unit {0})
guard = record {
  jwt = jwt;
  settings = settings;
  lower = λ t. t;
  decimal = λ n. "n";
  redis = unreachable;
  limits = record { rate_limit_requests = 2; rate_limit_window_seconds = 60 };
}

abbrev pub call : String → Request
call path = record { authorization = ""; client_host = none; route = none; url_path = path }

abbrev pub quiet : CacheState (Unit {0})
quiet = record {
  server = tt;
  log = record { errors = λ op. 0; last_logged = λ op. none; lines = [] };
}

-- whole numbers, with the distance of two as their difference
abbrev pub whole : Floats ℕ
whole = record {
  le = leb;
  add = λ a b. a + b;
  sub = λ a b. (a - b) + (b - a);
  mul = λ a b. a * b;
  div = λ a b. a / b;
  log = λ a. a - 1;
  abs = λ a. a;
  of_nat = λ n. n;
  ratio = λ a b. a / b;
  round = λ a n. a;
  repr = λ a. "";
}
