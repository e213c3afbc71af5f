-- ===== src/Routes/Journey/Scored.antt =====
-- A prediction that was answered can be scored (app/api/routes_predict.py over the writer of
-- app/services/prediction_writer.py and app/db/repositories.py).
use fast_api_project.Floats.{Floats}
use fast_api_project.Writer.{Writer}
use fast_api_project.Routes.World.{World}
