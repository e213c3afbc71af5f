-- ===== src/Health/Examples.antt =====
-- A round of `HealthRefresher` (app/services/health_refresh.py) with the database down.
use fast_api_project.Prelude.{ℕ, ◌≢◌, String, Option, some, []}
use fast_api_project.Database.{failed}
use fast_api_project.Tokens.Spelled.{settings}
use fast_api_project.Drift.{Constants}
use fast_api_project.Drift.Monitor.{ColumnEngine, DriftMonitor, new_monitor, configure}
use fast_api_project.Routes.Stub.{whole}
use fast_api_project.Health.{ScoreEngine, Health}

abbrev constants : Constants ℕ
constants = record {
  stable = 10;
  significant = 25;
  epsilon = 1;
  min_expected_share = 5;
  zero_float = 0;
}

abbrev down : ColumnEngine ℕ (Unit {0})
down = record { select_columns = λ columns order limit s. failed s }

abbrev no_scores : ScoreEngine ℕ (Unit {0})
no_scores = record { aggregate = λ statement s. failed s }

abbrev watching : DriftMonitor ℕ
watching =
    configure whole constants (some (record { numeric = []; categorical = [] }))
      (new_monitor whole constants 2000 200)

abbrev running : Health ℕ (Unit {0})
running = record {
  monitor = watching;
  gauges = record { live_mae = some 7; live_scored = 3 };
  database = tt;
}

key_set : settings.api_key ≢ ""
key_set e = cc

guessed : ◌≢◌ {A = Option String} (some "guess") (some "operator-key")
guessed e = cc
