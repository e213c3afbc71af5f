-- ===== src/Routes/Predict.antt =====
-- `predict_price` of app/api/routes_predict.py. The latency and price histograms are left out, and
-- the fresh UUID and `features['company']` are arguments. Times are in milliseconds, and in seconds for the token.
mod Examples
pub mod Logged
use fast_api_project.Prelude.{ℕ, ◌/◌, String, Bool, true, false, Option, none, some}
use fast_api_project.Exceptions.{Result, ok, raise}
use fast_api_project.Cache.{Encodings}
use fast_api_project.Service.{PredictionService, predict}
use fast_api_project.Tokens.{Principal, get_current_principal}
use fast_api_project.RateLimit.{Request}
use fast_api_project.Floats.{Floats}
use fast_api_project.Writer.{Writer, enqueue}
use fast_api_project.Exec.{M, resume, ◌>>=◌, ◌>>◌, lift}
use fast_api_project.Routes.World.{World, count_prediction, with_cache, Guard, limited}

-- The row that a prediction is logged as.
pub record LoggedPrediction (Features F : Type 0) : Type 0 where
  pub features : Features
  pub public_id : ℕ
  pub user_id : ℕ
  pub predicted_price : F
  pub cache_hit : Bool

pub record PredictionResponse (F : Type 0) : Type 0 where
  pub prediction_id : ℕ
  pub predicted_price : F
  pub currency : String
  pub model_version : Option ℕ
  pub cached : Bool

abbrev pub logged_row :
    {Features F : Type 0} → Features → ℕ → Principal → F → Bool → LoggedPrediction Features F
logged_row car prediction_id principal price cache_hit = record {
  features = car;
  public_id = prediction_id;
  user_id = principal.id;
  predicted_price = price;
  cache_hit = cache_hit;
}

module _ {S R Features F : Type 0} (fl : Floats F) (g : Guard R) (enc : Encodings Features F)
    (ttl : ℕ) (service : PredictionService Features F) (company_of : Features → String) where
  -- what follows the prediction
  unfoldable pub log_and_answer :
      Features
      → ℕ
      → Principal
      → F × Bool
      → M (World S R (LoggedPrediction Features F)) (PredictionResponse F)
  log_and_answer car prediction_id principal (price, cache_hit) w = (
    ok (record {
      prediction_id = prediction_id;
      predicted_price = fl.round price 2;
      currency = "INR";
      model_version = service.model_version;
      cached = cache_hit;
    }),
    record w {
      predictions = count_prediction (company_of car) cache_hit w.predictions;
      writer = enqueue (logged_row car prediction_id principal price cache_hit) w.writer;
    },
  )

  unfoldable pub predict_price :
      Request
      → Option String
      → Features
      → ℕ
      → ℕ
      → M (World S R (LoggedPrediction Features F)) (PredictionResponse F)
  unfolding log_and_answer
  predict_price request credentials car prediction_id now = do
    limited g request now
    principal ← lift (get_current_principal g.jwt g.settings credentials (now / 1000))
    answer ← with_cache (predict enc g.redis ttl service car now)
    log_and_answer car prediction_id principal answer
