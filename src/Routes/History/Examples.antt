-- ===== src/Routes/History/Examples.antt =====
-- `prediction_history` of app/api/routes_predict.py over a table in memory.
use fast_api_project.Prelude.{ℕ, ◌+◌, ◌≡◌, refl, String, false, none, some, List, [], ◌∷◌}
use fast_api_project.Exceptions.{ok}
use fast_api_project.Repository.{Prediction, history, history_statement, holds}
use fast_api_project.Writer.{init}
use fast_api_project.Repository.Memory.{Memory, memory, memory-IsSql}
use fast_api_project.Routes.World.{World}
use fast_api_project.Routes.Stub.{guard, call, quiet}
use fast_api_project.Routes.History.{prediction_history}
use fast_api_project.Routes.History.Own.{IsOwn, prediction_history-IsOwn}

abbrev made : ℕ → ℕ → String → Prediction ℕ
made id user_id company = record {
  id = id;
  public_id = 100 + id;
  user_id = some user_id;
  company = company;
  year = 2015;
  owner = "First";
  fuel = "Petrol";
  seller_type = "Dealer";
  transmission = "Manual";
  km_driven = 40000;
  mileage_mpg = 55;
  engine_cc = 1250;
  max_power_bhp = 80;
  torque_nm = 200;
  seats = 5;
  predicted_price = 500;
  actual_price = none;
  cache_hit = false;
  created_at = id;
}

abbrev logged : List (Prediction ℕ)
logged = made 1 2 "Audi" ∷ made 2 9 "Audi" ∷ made 3 2 "BMW" ∷ made 4 2 "Audi" ∷ []

abbrev start : World Memory (Unit {0}) ℕ
start = record {
  database = (logged, []);
  cache = quiet;
  writer = init 200 20000;
  predictions = λ c h. 0;
}

prediction_history-IsOwn_example :
    IsOwn guard memory
      (λ s. s.0)
      memory-IsSql
      (some "1111111111;11;asha")
      (some "Audi")
      none
      50
      0
      5000
      start
      (prediction_history guard memory
        (call "/predictions/history")
        (some "1111111111;11;asha")
        (some "Audi")
        none
        50
        0
        5000
        start)
prediction_history-IsOwn_example =
    prediction_history-IsOwn guard memory (λ s. s.0) memory-IsSql (call "/predictions/history")
      (some "1111111111;11;asha") (some "Audi") none 50 0 5000 start

-- the caller's own, the newest first
newest :
    history memory 2 (some "Audi") none 50 0 (logged, [])
    ≡ (ok (made 4 2 "Audi" ∷ made 1 2 "Audi" ∷ []), (logged, []))
unfolding history history_statement holds
newest = refl
