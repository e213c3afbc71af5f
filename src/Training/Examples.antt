-- ===== src/Training/Examples.antt =====
-- A training run on whole numbers, and a sweep.
use fast_api_project.Prelude.{
  ℕ, ◌++◌, append_assoc, append-nil, ◌-◌, ◌*◌, ◌%◌, ◌≡◌, refl, String, true, some, List, [], ◌∷◌,
  length, replicate, All, filter, leb, ◌==◌, if◌then◌else◌, str_eq, arith,
}
use Prim.Native.String
use fast_api_project.Floats.{IsOrdered}
use fast_api_project.Routes.Stub.{whole}
use fast_api_project.Drift.{Constants}
use fast_api_project.Drift.Scores.{Cell, num, text}
use fast_api_project.Training.{Numpy, Run}
use fast_api_project.Training.Digest.{Hash, IsStreaming, file_sha256, file_sha256-whole}
use fast_api_project.Training.Sweep.{
  Candidate, Lab, candidate, grid, tree_counts, depths, min_by, pick, threshold_of, sweep,
}
use fast_api_project.Training.Sweep.Pick.{IsOneOf, sweep-IsSmallest}

-- all values in the last bin of three
abbrev np : Numpy ℕ
np = record {
  nunique = λ values. length values;
  quantile_edges = λ bins values. 0 ∷ 10 ∷ 20 ∷ [];
  histogram = λ edges values. replicate (length edges - 1) (length values);
  value_counts = λ cells. ("Petrol", 1) ∷ [];
}

whole-IsOrdered : IsOrdered whole
whole-IsOrdered = record { le_total = λ a b. ground arith; le_trans = λ a b c h k. ground arith }

abbrev constants : Constants ℕ
constants = record {
  stable = 10;
  significant = 25;
  epsilon = 1;
  min_expected_share = 5;
  zero_float = 0;
}

abbrev frame : String → List (Cell ℕ)
frame column = if str_eq column "fuel" then text "Petrol" ∷ [] else replicate 12 (num 2015)

abbrev fitting : Run ℕ
fitting = record {
  now = "2026-01-01";
  model_type = "RandomForestRegressor";
  sklearn_version = "1.6.1";
  data_sha256 = "ab";
  rows_train = 12;
  rows_test = 3;
  measured = record { mae = 80; rmse = 90; r2 = 1; mape_pct = 0 };
  numeric = "year" ∷ [];
  categorical = "fuel" ∷ [];
}

-- more trees and deeper ones have less error and more bytes
abbrev lab : Lab ℕ
lab = record {
  cross_validate = λ trees depth. (1000 - trees - depth, 100);
  artifact_megabytes = λ trees depth. trees * depth;
}

errors : All (λ r. leb r.mae (threshold_of whole r) ≡ true) (grid lab tree_counts depths)
unfolding grid
errors = (
  refl,
  (
    refl,
    (
      refl,
      (
        refl,
        (
          refl,
          (
            refl,
            (
              refl,
              (
                refl,
                (
                  refl,
                  (
                    refl,
                    (
                      refl,
                      (refl, (refl, (refl, (refl, (refl, (refl, (refl, (refl, (refl, tt))))))))),
                    ),
                  ),
                ),
              ),
            ),
          ),
        ),
      ),
    ),
  ),
)

picks : sweep whole lab ≡ some (candidate lab 150 8)
unfolding sweep grid pick min_by
picks = refl

sweep-IsSmallest_example :
    (let results = grid lab tree_counts depths in
      (best picked : Candidate ℕ) × (sweep whole lab ≡ some picked)
      × (IsOneOf whole best results)
      × (All (λ r. leb best.mae r.mae ≡ true) results)
      × (IsOneOf whole picked results)
      × (leb picked.mae (threshold_of whole best) ≡ true)
      × All
          (λ r. leb picked.mb r.mb ≡ true)
          (filter (λ r. leb r.mae (threshold_of whole best)) results))
sweep-IsSmallest_example = sweep-IsSmallest whole whole-IsOrdered lab errors

-- a hash that keeps all bytes, and writes each as even or odd
abbrev written : List ℕ → String
written [] = ""
written (b ∷ bytes) = String.◌++◌ (if b % 2 == 0 then "e" else "o") (written bytes)

abbrev keeping : Hash ℕ (List ℕ)
keeping = record { new = []; update = λ bytes d. d ++ bytes; hexdigest = written }

keeping-IsStreaming : IsStreaming keeping
keeping-IsStreaming = record {
  update_append = λ xs ys d. append_assoc d xs ys;
  update_empty = λ d. append-nil d;
}

file_sha256-whole_example : file_sha256 keeping 6 2 (1 ∷ 2 ∷ 3 ∷ 4 ∷ 5 ∷ []) ≡ some "oeoeo"
file_sha256-whole_example = file_sha256-whole keeping 1 (1 ∷ 2 ∷ 3 ∷ 4 ∷ 5 ∷ []) keeping-IsStreaming
