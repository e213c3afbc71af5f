-- ===== src/Registry.antt =====
-- app/services/model_registry.py and the two handlers of app/api/routes_model.py that read it,
-- `model_info` and `model_performance`. The metadata is the fields that the code reads; the
-- artifact itself, and the switch of its `n_jobs`, are joblib's and scikit-learn's. Dictionaries
-- that are only passed on to the client are left out.
pub mod Versions
mod Examples
use Prim.Native.String
use fast_api_project.Prelude.{
  ℕ, String, Bool, true, false, Option, none, some, List, ◌==◌, str_eq, if◌then◌else◌,
}
use fast_api_project.Exceptions.{Result, ok, raise, raise_app, ErrorClass, ◌>>=◌}
use fast_api_project.Drift.Scores.{Reference}
use fast_api_project.Health.{LivePerformance}

pub record Metadata (F : Type 0) : Type 0 where
  pub version : Option ℕ
  pub trained_at : Option String
  pub model_type : Option String
  pub sklearn_version : Option String
  pub rows_train : Option ℕ
  pub rows_test : Option ℕ
  pub data_sha256 : Option String
  pub mae : Option F
  pub mape_pct : Option F
  pub training_distribution : Option (Reference F)

abbrev pub no_metadata : {F : Type 0} → Metadata F
no_metadata = record {
  version = none;
  trained_at = none;
  model_type = none;
  sklearn_version = none;
  rows_train = none;
  rows_test = none;
  data_sha256 = none;
  mae = none;
  mape_pct = none;
  training_distribution = none;
}

-- the file of the metadata: missing, not JSON, or read
pub data MetadataFile (F : Type 0) : Type 0 where
  missing undecodable : MetadataFile F
  decoded : Metadata F → MetadataFile F

-- `MODEL_VERSION`, `MODEL_TRAINING_MAE` with `none` for NaN, and `MODEL_SKLEARN_MATCH`
pub record ModelGauges (F : Type 0) : Type 0 where
  pub model_version : ℕ
  pub model_training_mae : Option F
  pub model_sklearn_match : ℕ

unfoldable pub read_metadata : {F : Type 0} → MetadataFile F → Metadata F
read_metadata missing = no_metadata
read_metadata undecodable = no_metadata
read_metadata (decoded metadata) = metadata

-- `not trained_with or trained_with == sklearn.__version__`
unfoldable pub versions_match : Option String → (runtime : String) → Bool
versions_match none runtime = true
versions_match (some trained_with) runtime =
    if str_eq trained_with "" then true else str_eq trained_with runtime

abbrev pub version_gauge : Option ℕ → ℕ
version_gauge none = 0
version_gauge (some v) = v

-- `mae or math.nan`, where `is_zero` is the test of a float for 0
abbrev pub mae_gauge : {F : Type 0} → (F → Bool) → Option F → Option F
mae_gauge is_zero none = none
mae_gauge is_zero (some mae) = if is_zero mae then none else some mae

-- `load_bundle`, past the unpickling: the metadata of the bundle, and the gauges
unfoldable pub load_bundle :
    {F : Type 0} → (F → Bool) → (runtime : String) → MetadataFile F → Metadata F × ModelGauges F
unfolding read_metadata versions_match
load_bundle is_zero runtime file =
    let metadata = read_metadata file in
    (
      metadata,
      record {
        model_version = version_gauge metadata.version;
        model_training_mae = mae_gauge is_zero metadata.mae;
        model_sklearn_match = if versions_match metadata.sklearn_version runtime then 1 else 0;
      },
    )

-- The part of `ModelInfo` that the modelled metadata gives.
pub record ModelInfo : Type 0 where
  pub version : Option ℕ
  pub trained_at : Option String
  pub model_type : Option String
  pub sklearn_version : Option String
  pub sklearn_version_runtime : String
  pub version_match : Bool
  pub training_rows : Option ℕ
  pub test_rows : Option ℕ
  pub data_sha256 : Option String

-- `summary['sklearn_version'] is None or …`
unfoldable pub version_match_of : Option String → (runtime : String) → Bool
version_match_of none runtime = true
version_match_of (some v) runtime = str_eq v runtime

-- `model_info`; the bundle is `none` where no model is loaded
unfoldable pub model_info :
    {F : Type 0} → (runtime : String) → Option (Metadata F) → Result ModelInfo
unfolding version_match_of
model_info runtime none = raise_app ErrorClass.model_unavailable
model_info runtime (some metadata) = ok (record {
  version = metadata.version;
  trained_at = metadata.trained_at;
  model_type = metadata.model_type;
  sklearn_version = metadata.sklearn_version;
  sklearn_version_runtime = runtime;
  version_match = version_match_of metadata.sklearn_version runtime;
  training_rows = metadata.rows_train;
  test_rows = metadata.rows_test;
  data_sha256 = metadata.data_sha256;
})

-- `ModelPerformance`
pub record ModelPerformance (F : Type 0) : Type 0 where
  pub scored : ℕ
  pub live_mae : Option F
  pub live_mape_pct : Option F
  pub training_mae : Option F
  pub training_mape_pct : Option F
  pub note : String

unfoldable pub note_of : (decimal : ℕ → String) → ℕ → String
note_of decimal scored =
    if scored == 0
    then "No outcomes reported yet. POST /predictions/{prediction_id}/actual to score a prediction."
    else String.◌++◌ "Live error over the last " (
        String.◌++◌ (decimal scored) " scored predictions, against held-out metrics from training.")

abbrev pub metrics_of : {F : Type 0} → Option (Metadata F) → Option F × Option F
metrics_of none = (none, none)
metrics_of (some metadata) = (metadata.mae, metadata.mape_pct)

-- `model_performance`, past its check of the token and the query of `live_performance`
unfoldable pub model_performance :
    {F : Type 0}
    → (decimal : ℕ → String) → LivePerformance F
    → Option (Metadata F)
    → ModelPerformance F
unfolding note_of
model_performance decimal live bundle =
    let (mae, mape_pct) = metrics_of bundle in
    record {
      scored = live.scored;
      live_mae = live.mae;
      live_mape_pct = live.mape_pct;
      training_mae = mae;
      training_mape_pct = mape_pct;
      note = note_of decimal live.scored;
    }
