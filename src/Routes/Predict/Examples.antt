-- ===== src/Routes/Predict/Examples.antt =====
-- `predict_price` of app/api/routes_predict.py with Redis down.
use fast_api_project.Prelude.{ℕ, ◌≡◌, refl, String, false, none, some, length}
use fast_api_project.Exceptions.{ok, raise_app, ErrorClass}
use fast_api_project.Cache.{
  Encodings, get_cached_prediction, set_cached_prediction, record_redis_error,
}
use fast_api_project.Service.{PredictionService, predict, lookup_or_infer, infer_and_store}
use fast_api_project.Tokens.{get_current_principal, claims, decode_access_token, principal_from}
use fast_api_project.Tokens.Spelled.{ununary}
use fast_api_project.RateLimit.{enforce_rate_limit, count_request}
use fast_api_project.Writer.{init, enqueue, full}
use fast_api_project.Routes.World.{World}
use fast_api_project.Routes.Stub.{guard, call, quiet, whole}
use fast_api_project.Routes.Predict.{LoggedPrediction, log_and_answer, predict_price}

abbrev enc : Encodings String ℕ
enc = record {
  payload = λ f. f;
  sha256_hex = λ t. t;
  decimal = λ n. "n";
  dumps = λ p. "p";
  loads = λ w. none;
}

abbrev service : PredictionService String ℕ
service = record { model = some (λ f. ok 500); model_version = some 3 }

abbrev start : World (Unit {0}) (Unit {0}) (LoggedPrediction String ℕ)
start = record { database = tt; cache = quiet; writer = init 200 20000; predictions = λ c h. 0 }

program : Unit {0}
unfolding predict_price log_and_answer predict lookup_or_infer infer_and_store get_cached_prediction
    set_cached_prediction get_current_principal claims decode_access_token principal_from ununary
    enforce_rate_limit count_request enqueue full init record_redis_error
program = tt

runs :
    (let out =
        predict_price whole guard enc 3600 service
          (λ car. car)
          (call "/predict")
          (some "1111111111;11;asha")
          "car"
          42
          5000
          start in
      (out.0
        ≡ ok (record {
          prediction_id = 42;
          predicted_price = 500;
          currency = "INR";
          model_version = some 3;
          cached = false;
        }))
      × (length out.1.writer.queue ≡ 1))
unfolding program
runs = (refl, refl)

anonymous :
    (predict_price whole guard enc 3600 service
      (λ car. car)
      (call "/predict")
      (some "11;11;asha")
      "car"
      42
      5000
      start).0
    ≡ raise_app ErrorClass.invalid_token
unfolding program
anonymous = refl
