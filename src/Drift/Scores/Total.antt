-- ===== src/Drift/Scores/Total.antt =====
-- `feature_scores` of app/services/drift.py raises on no sample.
use fast_api_project.Prelude.{◌+◌, ◌≤◌, ◌≡◌, length, All}
use fast_api_project.Floats.{Floats}
use fast_api_project.Drift.Scores.{NumericSpec, Reference}

-- The distribution that training/train_model.py records: two edges at least, and a proportion for
-- each bin between them.
pub record IsBinned {F : Type 0} (spec : NumericSpec F) : Type 0 where
  pub two_edges : 2 ≤ length spec.edges
  pub matched : length spec.edges ≡ length spec.proportions + 1

abbrev pub IsWellFormed : {F : Type 0} → Reference F → Type 0
IsWellFormed reference = All (λ entry. IsBinned entry.1) reference.numeric
