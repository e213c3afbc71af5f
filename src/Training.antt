-- ===== src/Training.antt =====
-- training/train_model.py and training/sweep.py. What numpy, pandas and scikit-learn compute is a
-- parameter; a column of the training frame is its cells. The mean and the deviation that the
-- distribution has too, which nothing reads, are left out.
pub mod Digest
pub mod WellFormed
pub mod Sweep
mod Examples
use fast_api_project.Prelude.{
  ℕ, ◌+◌, String, Bool, true, false, Option, none, some, List, [], ◌∷◌, ◌++◌, map, leb,
  if◌then◌else◌,
}
use fast_api_project.Exceptions.{Result, ok, raise, unhandled, ◌>>=◌}
use fast_api_project.Floats.{Floats}
use fast_api_project.Drift.Scores.{Cell, NumericSpec, Reference, assign, numbers}
use fast_api_project.Registry.{Metadata}

-- `nunique`, `unique(quantile(values, linspace(0, 1, bins + 1)))`, the counts of `histogram`, their
-- sum, and `value_counts(normalize=True)` with the keys as text
pub record Numpy (F : Type 0) : Type 0 where
  pub nunique : List F → ℕ
  pub quantile_edges : (bins : ℕ) → List F → List F
  pub histogram : (edges : List F) → List F → List ℕ
  pub value_counts : List (Cell F) → List (String × F)

-- `PSI_BINS`
abbrev pub psi_bins : ℕ
psi_bins = 10

abbrev pub total_of : List ℕ → ℕ
total_of [] = 0
total_of (c ∷ counts) = c + total_of counts

module _ {F : Type 0} (fl : Floats F) (np : Numpy F) (frame : String → List (Cell F)) where
  abbrev pub spec_of : List F → NumericSpec F
  spec_of values =
      let edges = np.quantile_edges psi_bins values in
      let counts = np.histogram edges values in
      record { edges = edges; proportions = map (λ c. fl.ratio c (total_of counts)) counts }

  -- The loop over the numeric columns: their specs, and the columns that are treated as discrete
  unfoldable pub numeric_reference :
      List String
      → List (String × NumericSpec F)
      → List String
      → List (String × NumericSpec F) × List String
  unfolding numbers assign
  numeric_reference [] specs discrete = (specs, discrete)
  numeric_reference (column ∷ columns) specs discrete =
      let values = numbers (frame column) in
      let as_discrete = numeric_reference columns specs (discrete ++ column ∷ []) in
      let as_numeric = numeric_reference columns (assign column (spec_of values) specs) discrete in
      if leb (np.nunique values) psi_bins then as_discrete else as_numeric

  unfoldable pub categorical_reference :
      List String → List (String × List (String × F)) → List (String × List (String × F))
  unfolding assign
  categorical_reference [] proportions = proportions
  categorical_reference (column ∷ columns) proportions =
      categorical_reference columns (assign column (np.value_counts (frame column)) proportions)

  unfoldable pub training_distribution : (numeric categorical : List String) → Reference F
  unfolding numeric_reference categorical_reference
  training_distribution numeric categorical =
      let binned = numeric_reference numeric [] [] in
      record {
        numeric = binned.0;
        categorical = categorical_reference (categorical ++ binned.1) [];
      }

-- The metadata file of the last training, as `next_version` meets it: missing, not JSON or with a
-- `version` that is no number, without one, with null, or with a number.
pub data LastVersion : Type 0 where
  no_file unreadable absent null : LastVersion
  number : ℕ → LastVersion

-- int(None) raises TypeError, which is not caught.
unfoldable pub next_version : LastVersion → Result ℕ
next_version no_file = ok 1
next_version unreadable = ok 1
next_version absent = ok (0 + 1)
next_version null = raise (unhandled "TypeError")
next_version (number n) = ok (n + 1)

pub record Metrics (F : Type 0) : Type 0 where
  pub mae : F
  pub rmse : F
  pub r2 : F
  pub mape_pct : F

-- `score`, on what scikit-learn and numpy measure
unfoldable pub score : {F : Type 0} → Floats F → (measured : Metrics F) → Metrics F
score fl measured = record {
  mae = fl.round measured.mae 2;
  rmse = fl.round measured.rmse 2;
  r2 = fl.round measured.r2 4;
  mape_pct = fl.round (fl.mul measured.mape_pct (fl.of_nat 100)) 2;
}

-- What `main` takes from its surroundings: the clock, the libraries and the data file.
pub record Run (F : Type 0) : Type 0 where
  pub now : String
  pub model_type : String
  pub sklearn_version : String
  pub data_sha256 : String
  pub rows_train : ℕ
  pub rows_test : ℕ
  pub measured : Metrics F
  pub numeric : List String
  pub categorical : List String

-- The metadata that `main` writes, of the fields that the service reads
abbrev pub assemble :
    {F : Type 0}
    → Floats F
    → Numpy F
    → (String → List (Cell F))
    → Run F
    → (version : ℕ) → Metadata F
assemble fl np frame run version =
    let metrics = score fl run.measured in
    record {
      version = some version;
      trained_at = some run.now;
      model_type = some run.model_type;
      sklearn_version = some run.sklearn_version;
      rows_train = some run.rows_train;
      rows_test = some run.rows_test;
      data_sha256 = some run.data_sha256;
      mae = some metrics.mae;
      mape_pct = some metrics.mape_pct;
      training_distribution = some (training_distribution fl np frame run.numeric run.categorical);
    }

-- `main`, up to the file it writes
unfoldable pub metadata_of :
    {F : Type 0}
    → Floats F
    → Numpy F
    → (String → List (Cell F))
    → Run F
    → LastVersion
    → Result (Metadata F)
unfolding training_distribution score next_version
metadata_of fl np frame run last =
    next_version last >>= λ version. ok (assemble fl np frame run version)
