-- ===== src/Routes/Actual/Examples.antt =====
-- `record_actual_price` of app/api/routes_predict.py over a table in memory.
use fast_api_project.Prelude.{
  ℕ, ◌+◌, ◌-◌, ◌*◌, ◌/◌, ◌≡◌, refl, false, none, some, [], ◌∷◌, map, leb,
}
use fast_api_project.Exceptions.{ok, raise_app, ErrorClass}
use fast_api_project.Floats.{Floats}
use fast_api_project.Repository.{
  Prediction, holds, unscored, record_actual, exists, scalar_one_or_none,
}
use fast_api_project.Repository.Memory.{Memory, memory, memory-IsSql}
use fast_api_project.Repository.Actuals.{unscored_rows, settle}
use fast_api_project.Routes.Actual.{scored_of, score_or_refuse, record_actual_price}
use fast_api_project.Routes.Actual.Once.{record_actual_price-once}

-- whole rupees, with the distance of two as their difference
abbrev rupees : Floats ℕ
rupees = record {
  le = leb;
  add = λ a b. a + b;
  sub = λ a b. (a - b) + (b - a);
  mul = λ a b. a * b;
  div = λ a b. a / b;
  log = λ a. a - 1;
  abs = λ a. a;
  of_nat = λ n. n;
  ratio = λ a b. a / b;
  round = λ a n. a;
  repr = λ a. "";
}

abbrev sold : Prediction ℕ
sold = record {
  id = 1;
  public_id = 101;
  user_id = some 7;
  company = "Audi";
  year = 2015;
  owner = "First";
  fuel = "Petrol";
  seller_type = "Dealer";
  transmission = "Manual";
  km_driven = 40000;
  mileage_mpg = 55;
  engine_cc = 1250;
  max_power_bhp = 80;
  torque_nm = 200;
  seats = 5;
  predicted_price = 500;
  actual_price = none;
  cache_hit = false;
  created_at = 1;
}

abbrev logged : Memory
logged = (sold ∷ record sold { id = 2; public_id = 102 } ∷ [], [])

abbrev priced : Memory
priced = (record sold { actual_price = some 450 } ∷ [], [])

program : Unit {0}
unfolding record_actual_price score_or_refuse record_actual exists scalar_one_or_none unscored holds
program = tt

unsettled : unscored_rows 101 logged.0 ≡ sold ∷ []
unfolding program
unsettled = refl

all_settled : unscored_rows 101 priced.0 ≡ []
unfolding program
all_settled = refl

refused-runs :
    (record_actual_price rupees memory 101 470 priced).0
    ≡ raise_app ErrorClass.actual_already_recorded
unfolding program
refused-runs = refl

record_actual_price-once_example :
    (s : Memory) × (record_actual_price rupees memory 101 450 logged
      ≡ (ok (scored_of rupees 101 500 450), s))
    × (s.0 ≡ map (settle 101 450) logged.0)
    × ((t : Memory) × (record_actual_price rupees memory 101 470 s
          ≡ (raise_app ErrorClass.actual_already_recorded, t))
        × (t.0 ≡ s.0))
record_actual_price-once_example =
    record_actual_price-once rupees memory (λ s. s.0) memory-IsSql 101 450 470 logged sold unsettled
