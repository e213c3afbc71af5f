-- ===== src/Routes/Journey.antt =====
-- A prediction on its way through the program: app/api/routes_predict.py answers it, the writer of
-- app/services/prediction_writer.py logs it, and an operator scores it. The session of the writer and the
-- engine of the queries have one database.
pub mod Cells
pub mod Scored
mod Examples
use fast_api_project.Prelude.{Bool, none, some}
use fast_api_project.Schemas.{CarFeatures}
use fast_api_project.Repository.{Prediction}
use fast_api_project.Routes.Predict.{LoggedPrediction}

-- The cells that an INSERT of a row sets; `numeric` is the rounding of a Numeric(12, 2) column. The
-- columns that the database fills, the id and the time, are 0 here.
abbrev pub inserted :
    {F : Type 0} → (numeric : F → F) → LoggedPrediction (CarFeatures F) F → Prediction F
inserted numeric logged = record {
  id = 0;
  public_id = logged.public_id;
  user_id = some logged.user_id;
  company = logged.features.company;
  year = logged.features.year;
  owner = logged.features.owner;
  fuel = logged.features.fuel;
  seller_type = logged.features.seller_type;
  transmission = logged.features.transmission;
  km_driven = logged.features.km_driven;
  mileage_mpg = logged.features.mileage_mpg;
  engine_cc = logged.features.engine_cc;
  max_power_bhp = logged.features.max_power_bhp;
  torque_nm = logged.features.torque_nm;
  seats = logged.features.seats;
  predicted_price = numeric logged.predicted_price;
  actual_price = none;
  cache_hit = logged.cache_hit;
  created_at = 0;
}

-- a row without what the database fills in
abbrev pub cells : {F : Type 0} → Prediction F → Prediction F
cells row = record row { id = 0; created_at = 0 }
