-- ===== src/Routes/Actual.antt =====
-- `record_actual_price` of app/api/routes_predict.py, past its checks of key, rate and body.
mod Examples
pub mod Once
use fast_api_project.Prelude.{ℕ, Bool, true, false, Option, none, some, if◌then◌else◌}
use fast_api_project.Exceptions.{Result, ErrorClass, raise_app}
use fast_api_project.Exec.{M, resume, ◌>>=◌, pure, lift}
use fast_api_project.Floats.{Floats}
use fast_api_project.Repository.{Engine, record_actual, exists}

pub record ScoredPrediction (N : Type 0) : Type 0 where
  pub prediction_id : ℕ
  pub predicted_price : N
  pub actual_price : N
  pub absolute_error : N

abbrev pub scored_of : {N : Type 0} → Floats N → ℕ → (predicted actual : N) → ScoredPrediction N
scored_of fl prediction_id predicted actual = record {
  prediction_id = prediction_id;
  predicted_price = predicted;
  actual_price = actual;
  absolute_error = fl.round (fl.abs (fl.sub predicted actual)) 2;
}

module _ {N S : Type 0} (fl : Floats N) (engine : Engine N S) where
  -- what the handler does with the result of `record_actual`
  unfoldable pub score_or_refuse : ℕ → N → Option N → M S (ScoredPrediction N)
  score_or_refuse prediction_id actual_price none = do
    found ← exists engine prediction_id
    lift (
        if found
        then raise_app ErrorClass.actual_already_recorded
        else raise_app ErrorClass.prediction_not_found)
  score_or_refuse prediction_id actual_price (some predicted) =
      pure (scored_of fl prediction_id predicted actual_price)

  unfoldable pub record_actual_price : ℕ → N → M S (ScoredPrediction N)
  unfolding score_or_refuse
  record_actual_price prediction_id actual_price = do
    predicted ← record_actual engine prediction_id actual_price
    score_or_refuse prediction_id actual_price predicted
