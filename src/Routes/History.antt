-- ===== src/Routes/History.antt =====
-- `prediction_history` of app/api/routes_predict.py, past the checks of its query parameters.
pub mod Own
mod Examples
use fast_api_project.Prelude.{ℕ, ◌/◌, String, Bool, Option, List, map, length}
use fast_api_project.Exceptions.{Result, ok, raise}
use fast_api_project.Tokens.{Principal, get_current_principal}
use fast_api_project.RateLimit.{Request}
use fast_api_project.Repository.{Prediction, Engine, history}
use fast_api_project.Exec.{M, resume, ◌>>=◌, ◌>>◌, pure, lift}
use fast_api_project.Routes.World.{World, with_database, Guard, limited}

-- What a client sees of a row: the public id, and not the internal one.
pub record PredictionRecord (N : Type 0) : Type 0 where
  pub prediction_id : ℕ
  pub company : String
  pub year : ℕ
  pub fuel : String
  pub transmission : String
  pub km_driven : N
  pub predicted_price : N
  pub cache_hit : Bool
  pub created_at : ℕ

pub record PredictionHistory (N : Type 0) : Type 0 where
  pub count : ℕ
  pub items : List (PredictionRecord N)

-- `PredictionRecord.model_validate`
unfoldable pub record_of : {N : Type 0} → Prediction N → PredictionRecord N
record_of row = record {
  prediction_id = row.public_id;
  company = row.company;
  year = row.year;
  fuel = row.fuel;
  transmission = row.transmission;
  km_driven = row.km_driven;
  predicted_price = row.predicted_price;
  cache_hit = row.cache_hit;
  created_at = row.created_at;
}

abbrev pub page_of : {N : Type 0} → List (Prediction N) → PredictionHistory N
page_of rows = record { count = length rows; items = map record_of rows }

module _ {S R Row N : Type 0} (g : Guard R) (engine : Engine N S) where
  unfoldable pub prediction_history :
      Request
      → Option String
      → Option String
      → Option ℕ
      → (limit offset now : ℕ) → M (World S R Row) (PredictionHistory N)
  prediction_history request credentials company year limit offset now = do
    limited g request now
    principal ← lift (get_current_principal g.jwt g.settings credentials (now / 1000))
    rows ← with_database (history engine principal.id company year limit offset)
    pure (page_of rows)
