-- ===== src/Drift/Monitor/Examples.antt =====
-- A refresh of `DriftMonitor` (app/services/drift.py) over rows in memory.
use fast_api_project.Prelude.{ℕ, some, List, take}
use fast_api_project.Database.{done}
use fast_api_project.Drift.Examples.{percents, constants, trained}
use fast_api_project.Drift.Scores.{Row}
use fast_api_project.Drift.Monitor.{ColumnEngine, DriftMonitor, new_monitor, configure}

-- the log is the state, newest first
abbrev logged : ColumnEngine ℕ (List (Row ℕ))
logged = record { select_columns = λ columns order limit s. done (take limit s) s }

abbrev watching : DriftMonitor ℕ
watching = configure percents constants (some trained) (new_monitor percents constants 2 2)
