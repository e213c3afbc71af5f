-- ===== src/Routes/Journey/Examples.antt =====
-- A prediction that was answered, logged and scored over a table in memory, which refuses the rows of the
-- user 13.
use fast_api_project.Prelude.{
  ℕ, Bool, false, not, none, some, [], ◌∷◌, ◌++◌, map, all, ◌==◌, if◌then◌else◌,
}
use fast_api_project.Exceptions.{Result, ok, raise}
use fast_api_project.Database.{Session, done, integrity}
use fast_api_project.Schemas.{CarFeatures}
use fast_api_project.Cache.{
  Encodings, get_cached_prediction, set_cached_prediction, record_redis_error,
}
use fast_api_project.Service.{PredictionService, predict, lookup_or_infer, infer_and_store}
use fast_api_project.Tokens.{
  Principal, get_current_principal, claims, decode_access_token, principal_from,
}
use fast_api_project.Tokens.Spelled.{ununary}
use fast_api_project.RateLimit.{enforce_rate_limit, count_request}
use fast_api_project.Writer.{init, enqueue, full}
use fast_api_project.Repository.Memory.{Memory}
use fast_api_project.Routes.World.{World}
use fast_api_project.Routes.Stub.{guard, call, quiet, whole}
use fast_api_project.Routes.Predict.{
  LoggedPrediction, PredictionResponse, log_and_answer, predict_price,
}
use fast_api_project.Routes.Journey.{inserted}

abbrev Row : Type 0
Row = LoggedPrediction (CarFeatures ℕ) ℕ

abbrev allowed : Row → Bool
allowed row = not (row.user_id == 13)

-- prices are whole, so the column rounds nothing
abbrev numeric : ℕ → ℕ
numeric price = price

abbrev session : Session Row Memory
session = record {
  execute_insert = λ rows s.
      if all allowed rows
      then done tt (s.0, s.0 ++ map (inserted numeric) rows)
      else integrity (s.0, s.0);
  commit = λ s. done tt (s.1, s.1);
  rollback = λ s. done tt (s.0, s.0);
}

abbrev car : CarFeatures ℕ
car = record {
  company = "Audi";
  year = 2015;
  owner = "First";
  fuel = "Petrol";
  seller_type = "Dealer";
  transmission = "Manual";
  km_driven = 40000;
  mileage_mpg = 55;
  engine_cc = 1250;
  max_power_bhp = 80;
  torque_nm = 200;
  seats = 5;
}

abbrev enc : Encodings (CarFeatures ℕ) ℕ
enc = record {
  payload = λ f. f.company;
  sha256_hex = λ t. t;
  decimal = λ n. "n";
  dumps = λ p. "p";
  loads = λ w. none;
}

abbrev service : PredictionService (CarFeatures ℕ) ℕ
service = record { model = some (λ f. ok 500); model_version = some 3 }

-- a row of the refused user waits in the queue
abbrev waiting : Row
waiting = record {
  features = car;
  public_id = 41;
  user_id = 13;
  predicted_price = 300;
  cache_hit = false;
}

abbrev start : World Memory (Unit {0}) Row
start = record {
  database = ([], []);
  cache = quiet;
  writer = record (init 200 20000) { queue = waiting ∷ [] };
  predictions = λ c h. 0;
}

program : Unit {0}
unfolding predict_price log_and_answer predict lookup_or_infer infer_and_store get_cached_prediction
    set_cached_prediction get_current_principal claims decode_access_token principal_from ununary
    enforce_rate_limit count_request enqueue full init record_redis_error
program = tt

abbrev asked : Result (PredictionResponse ℕ) × World Memory (Unit {0}) Row
asked =
    predict_price whole guard enc 3600 service (λ c. c.company) (call "/predict")
      (some "1111111111;11;asha") car 42 5000 start

abbrev answer : PredictionResponse ℕ
answer = record {
  prediction_id = 42;
  predicted_price = 500;
  currency = "INR";
  model_version = some 3;
  cached = false;
}

id_of : Result Principal → ℕ
id_of (ok principal) = principal.id
id_of (raise e) = 0
