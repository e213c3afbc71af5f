-- ===== src/Drift/Monitor/Refresh.antt =====
-- A refresh of `DriftMonitor` (app/services/drift.py) succeeds, and shows what it scored.
use fast_api_project.Prelude.{ℕ, ◌≤◌, ◌≡◌, String, List, length}
use fast_api_project.Database.{done}
use fast_api_project.Floats.{Floats}
use fast_api_project.Repository.{OrderBy}
use fast_api_project.Drift.Scores.{Row}
use fast_api_project.Drift.Monitor.{ColumnEngine}

-- The documented behaviour of a reachable database: a query with a limit returns no more rows.
abbrev pub IsReachable : {F S : Type 0} → ColumnEngine F S → Type 0
IsReachable {F} {S} engine =
    (columns : List String) (order : OrderBy) (limit : ℕ) (s : S)
    → (rows : List (Row F)) × (s' : S) × (engine.select_columns columns order limit s
        ≡ done rows s')
      × (length rows ≤ limit)
