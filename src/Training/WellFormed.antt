-- ===== src/Training/WellFormed.antt =====
-- What training/train_model.py records is what the service can load and score against.
use fast_api_project.Prelude.{ℕ, ◌+◌, ◌≤◌, ◌≡◌, String, Bool, some, List, length, All}
use fast_api_project.Floats.{Floats}
use fast_api_project.Drift.{Constants}
use fast_api_project.Drift.Scores.{Cell, NumericSpec, Reference, Row, feature_scores}
use fast_api_project.Drift.Scores.Total.{IsBinned}
use fast_api_project.Registry.{Metadata, decoded, load_bundle}
use fast_api_project.Training.{Numpy, training_distribution}

-- Documented behaviour: two distinct values have a least and a greatest quantile, which differ, and a
-- histogram has a count for each bin.
pub record IsNumpy {F : Type 0} (np : Numpy F) : Type 0 where
  pub two_edges :
      (bins : ℕ) (values : List F)
      → 1 ≤ bins
      → 2 ≤ np.nunique values
      → 2 ≤ length (np.quantile_edges bins values)
  pub a_count_per_bin :
      (edges values : List F)
      → 2 ≤ length edges
      → length edges ≡ length (np.histogram edges values) + 1

Binned : {F : Type 0} → List (String × NumericSpec F) → Type 0
Binned specs = All (λ entry. IsBinned entry.1) specs

module _ {F : Type 0} (fl : Floats F) (np : Numpy F) (numpy : IsNumpy np)
    (frame : String → List (Cell F)) where
  -- what a service that loads a file under the scikit-learn it was trained with has of it
  abbrev pub IsUsable :
      Constants F → (F → Bool) → (runtime : String) → ℕ → List (Row F) → Metadata F → Type 0
  IsUsable k is_zero runtime version sample metadata =
      let loaded = load_bundle is_zero runtime (decoded metadata) in
      (loaded.0.version ≡ some version)
      × (loaded.1.model_version ≡ version)
      × (loaded.1.model_sklearn_match ≡ 1)
      × ((reference : Reference F) × (scores : List (String × F)) × (loaded.0.training_distribution
            ≡ some reference)
          × (feature_scores fl k reference sample ≡ some scores))
