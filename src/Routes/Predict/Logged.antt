-- ===== src/Routes/Predict/Logged.antt =====
-- Which predictions `predict_price` of app/api/routes_predict.py logs.
use fast_api_project.Prelude.{ℕ, ◌/◌, ◌≡◌, String, Option}
use fast_api_project.Exceptions.{Result, ok, raise}
use fast_api_project.Cache.{Encodings}
use fast_api_project.Service.{PredictionService}
use fast_api_project.Tokens.{Principal, get_current_principal}
use fast_api_project.Floats.{Floats}
use fast_api_project.Writer.{enqueue}
use fast_api_project.Routes.World.{World, count_prediction, Guard}
use fast_api_project.Routes.Predict.{LoggedPrediction, PredictionResponse, logged_row}

module _ {S R Features F : Type 0} (fl : Floats F) (g : Guard R) (enc : Encodings Features F)
    (ttl : ℕ) (service : PredictionService Features F) (company_of : Features → String) where
  -- An answer has one row in the log, for the caller and with the price before rounding, and is counted
  -- once; an error has no row and is not counted.
  abbrev pub IsLogged :
      Option String
      → Features
      → ℕ
      → ℕ
      → World S R (LoggedPrediction Features F)
      → Result (PredictionResponse F) × World S R (LoggedPrediction Features F)
      → Type 0
  IsLogged credentials car prediction_id now w (ok answer, w') =
      (principal : Principal) × (price : F) × (get_current_principal g.jwt g.settings credentials
          (now / 1000)
        ≡ ok principal)
      × (answer.prediction_id ≡ prediction_id)
      × (answer.predicted_price ≡ fl.round price 2)
      × (w'.writer ≡ enqueue (logged_row car prediction_id principal price answer.cached) w.writer)
      × (w'.database ≡ w.database)
      × (w'.predictions ≡ count_prediction (company_of car) answer.cached w.predictions)
  IsLogged credentials car prediction_id now w (raise e, w') =
      (w'.writer ≡ w.writer) × (w'.database ≡ w.database) × (w'.predictions ≡ w.predictions)
