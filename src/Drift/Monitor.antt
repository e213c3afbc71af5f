-- ===== src/Drift/Monitor.antt =====
-- `DriftMonitor` of app/services/drift.py and `recent_inputs` of app/db/repositories.py. The gauges
-- are fields of the state, and the database is a parameter. An empty reference is `none`.
mod Examples
pub mod Refresh
use fast_api_project.Prelude.{
  ℕ, String, Bool, true, false, Option, none, some, List, [], ◌∷◌, ◌++◌, map, length, if◌then◌else◌,
}
use fast_api_project.Exceptions.{Result, ok, raise, unhandled}
use fast_api_project.Database.{Attempt}
use fast_api_project.Floats.{Floats}
use fast_api_project.Exec.{M, query, uncaught}
use fast_api_project.Repository.{OrderBy, id_desc}
use fast_api_project.Drift.{Constants}
use fast_api_project.Drift.Scores.{Row, Reference, assign, feature_scores}
use fast_api_project.Drift.Report.{DriftReport, report}

-- A query for some columns of `predictions`.
pub record ColumnEngine (F S : Type 0) : Type 0 where
  pub select_columns :
      (columns : List String) → OrderBy → (limit : ℕ) → S → Attempt S (List (Row F))

unfoldable pub recent_inputs :
    {F S : Type 0} → ColumnEngine F S → List String → ℕ → M S (List (Row F))
recent_inputs engine columns limit = query (engine.select_columns columns id_desc limit)

pub record DriftMonitor (F : Type 0) : Type 0 where
  pub window : ℕ
  pub min_samples : ℕ
  pub reference : Option (Reference F)
  pub latest : DriftReport F
  -- `DRIFT_SAMPLES` and `DRIFT_PSI`
  pub sample_gauge : ℕ
  pub psi_gauge : List (String × F)

unfoldable pub columns_of : {F : Type 0} → Reference F → List String
columns_of reference =
    map (λ entry. entry.0) reference.numeric ++ map (λ entry. entry.0) reference.categorical

-- `DRIFT_PSI.labels(feature=feature).set(value)` for each score
unfoldable pub set_gauges : {F : Type 0} → List (String × F) → List (String × F) → List (String × F)
unfolding assign
set_gauges [] gauge = gauge
set_gauges ((feature, value) ∷ scores) gauge = set_gauges scores (assign feature value gauge)

module _ {F : Type 0} (fl : Floats F) (k : Constants F) where
  unfoldable pub new_monitor : (window min_samples : ℕ) → DriftMonitor F
  new_monitor window min_samples = record {
    window = window;
    min_samples = min_samples;
    reference = none;
    latest = report fl k {R = Reference F} none [] 0 min_samples;
    sample_gauge = 0;
    psi_gauge = [];
  }

  unfoldable pub configure : Option (Reference F) → DriftMonitor F → DriftMonitor F
  configure distribution m = record m {
    reference = distribution;
    latest = report fl k distribution [] 0 m.min_samples;
  }

  -- what `refresh` does with the scores of a sample
  unfoldable pub show : Reference F → List (String × F) → ℕ → DriftMonitor F → DriftMonitor F
  unfolding set_gauges
  show reference scores samples m =
      let latest = report fl k (some reference) scores samples m.min_samples in
      record m {
        latest = latest;
        sample_gauge = samples;
        psi_gauge = if latest.ready then set_gauges scores m.psi_gauge else m.psi_gauge;
      }

  module _ {S : Type 0} (engine : ColumnEngine F S) where
    -- what follows the sample
    unfoldable pub score_sample :
        Reference F
        → DriftMonitor F
        → Result (List (Row F)) × S
        → Result (DriftReport F) × (DriftMonitor F × S)
    unfolding show
    score_sample reference m (raise e, s) = (raise e, (m, s))
    score_sample reference m (ok sample, s) = elim (feature_scores fl k reference sample) [
      | none ↦ (raise (unhandled "feature_scores"), (m, s))
      | some scores ↦
          let shown = show reference scores (length sample) m in (ok shown.latest, (shown, s))
    ]

    -- a refresh against the given reference
    unfoldable pub refresh_against : Option (Reference F) → M (DriftMonitor F × S) (DriftReport F)
    unfolding score_sample columns_of recent_inputs
    refresh_against none (m, s) = (ok m.latest, (m, s))
    refresh_against (some reference) (m, s) =
        score_sample reference m (recent_inputs engine (columns_of reference) m.window s)

    unfoldable pub refresh : M (DriftMonitor F × S) (DriftReport F)
    unfolding refresh_against
    refresh (m, s) = refresh_against m.reference (m, s)
