-- ===== src/Health.antt =====
-- app/services/health_refresh.py with `live_performance` of app/db/repositories.py, and the drift
-- handler of app/api/routes_model.py. The aggregates of the query are a parameter.
pub mod Keeps
mod Examples
use fast_api_project.Prelude.{
  ℕ, String, Bool, true, false, Option, none, some, List, [], ◌∷◌, ◌==◌, if◌then◌else◌,
}
use fast_api_project.Exceptions.{Result, ok, raise}
use fast_api_project.Database.{Attempt}
use fast_api_project.Floats.{Floats}
use fast_api_project.Exec.{M, resume, ◌>>=◌, ◌>>◌, pure, lift, uncaught, query}
use fast_api_project.Repository.{Select, actual_is_not_null, created_at_desc}
use fast_api_project.Tokens.{TokenSettings, require_api_key}
use fast_api_project.Drift.{Constants}
use fast_api_project.Drift.Report.{DriftReport}
use fast_api_project.Drift.Monitor.{ColumnEngine, DriftMonitor, refresh}

pub record LivePerformance (F : Type 0) : Type 0 where
  pub scored : ℕ
  pub mae : Option F
  pub mape_pct : Option F

-- The count of the rows that a statement selects, and the averages of their errors; no rows have
-- no average.
pub record ScoreEngine (F S : Type 0) : Type 0 where
  pub aggregate : Select → S → Attempt S (LivePerformance F)

-- the rows with a reported outcome, newest first
unfoldable pub scored_statement : ℕ → Select
scored_statement limit = record {
  conditions = actual_is_not_null ∷ [];
  order_by = created_at_desc;
  limit = limit;
  offset = 0;
}

abbrev pub rounded : {F : Type 0} → Floats F → Option F → Option F
rounded fl none = none
rounded fl (some x) = some (fl.round x 2)

-- `LIVE_MAE` and `LIVE_SCORED`
pub record LiveGauges (F : Type 0) : Type 0 where
  pub live_mae : Option F
  pub live_scored : ℕ

-- `LIVE_WINDOW`
abbrev pub live_window : ℕ
live_window = 1000

abbrev pub set_live : {F : Type 0} → LivePerformance F → LiveGauges F → LiveGauges F
set_live live gauges = record {
  live_mae = elim live.mae [ none ↦ gauges.live_mae | some mae ↦ some mae ];
  live_scored = live.scored;
}

pub record Health (F S : Type 0) : Type 0 where
  pub monitor : DriftMonitor F
  pub gauges : LiveGauges F
  pub database : S

module _ {F S : Type 0} (fl : Floats F) (scores : ScoreEngine F S) where
  unfoldable pub live_performance : ℕ → M S (LivePerformance F)
  unfolding scored_statement
  live_performance limit = do
    row ← query (scores.aggregate (scored_statement limit))
    pure (record {
      scored = row.scored;
      mae = rounded fl row.mae;
      mape_pct = rounded fl row.mape_pct;
    })

  -- the gauges are set where the query returns
  unfoldable pub set_or_raise :
      LiveGauges F → Result (LivePerformance F) × S → Result (Unit {0}) × (LiveGauges F × S)
  set_or_raise gauges (ok live, s) = (ok tt, (set_live live gauges, s))
  set_or_raise gauges (raise e, s) = (raise e, (gauges, s))

  unfoldable pub refresh_live_error : M (LiveGauges F × S) (Unit {0})
  unfolding live_performance set_or_raise
  refresh_live_error (gauges, s) = set_or_raise gauges (live_performance live_window s)

  module _ (k : Constants F) (columns : ColumnEngine F S) where
    -- `refresh_once`: each exception is logged, and goes no further
    unfoldable pub refresh_once : Health F S → Health F S
    unfolding refresh_live_error
    refresh_once h =
        let drift = refresh fl k columns (h.monitor, h.database) in
        let live = refresh_live_error (h.gauges, drift.1.1) in
        record { monitor = drift.1.0; gauges = live.1.0; database = live.1.1 }

    -- `model_drift`
    unfoldable pub model_drift :
        TokenSettings → Bool → Option String → M (DriftMonitor F × S) (DriftReport F)
    model_drift settings false api_key (m, s) = (ok m.latest, (m, s))
    model_drift settings true api_key (m, s) =
        resume (lift (require_api_key settings api_key) (m, s)) λ _. refresh fl k columns
