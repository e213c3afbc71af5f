-- ===== src/Repository/Examples.antt =====
-- The queries of app/db/repositories.py over a table in memory.
use fast_api_project.Prelude.{ℕ, ◌+◌, ◌≡◌, refl, String, Option, false, none, some, [], ◌∷◌}
use fast_api_project.Exceptions.{ok}
use fast_api_project.Repository.{Prediction, history, history_statement, holds}
use fast_api_project.Repository.Memory.{Memory, memory}

-- a prediction that was made for a user, of a brand and a year
abbrev pub made_for : ℕ → Option ℕ → String → ℕ → Prediction ℕ
made_for id user_id company year = record {
  id = id;
  public_id = 100 + id;
  user_id = user_id;
  company = company;
  year = year;
  owner = "First";
  fuel = "Petrol";
  seller_type = "Dealer";
  transmission = "Manual";
  km_driven = 40000;
  mileage_mpg = 55;
  engine_cc = 1250;
  max_power_bhp = 80;
  torque_nm = 200;
  seats = 5;
  predicted_price = 500;
  actual_price = none;
  cache_hit = false;
  created_at = id;
}

abbrev pub logged : Memory
logged = (
  made_for 1 (some 7) "Audi" 2015
      ∷ made_for 2 (some 8) "Audi" 2015
      ∷ made_for 3 (some 7) "BMW" 2015
      ∷ [],
  [],
)

history-runs :
    history memory 7 (some "Audi") none 50 0 logged
    ≡ (ok (made_for 1 (some 7) "Audi" 2015 ∷ []), logged)
unfolding history history_statement holds
history-runs = refl
