-- ===== src/Drift/Scores.antt =====
-- `feature_scores` of app/services/drift.py. Dictionaries are association lists in their order.
pub mod Counts
pub mod Total
use fast_api_project.Prelude.{
  ℕ, zero, suc, ◌+◌, ◌-◌, String, Bool, true, false, not, Option, none, some, List, [], ◌∷◌, ◌++◌,
  length, replicate, map, filter, str_eq, if◌then◌else◌,
}
use fast_api_project.Floats.{Floats, lt}
use fast_api_project.Drift.{Constants, psi, count_values, ◌>>=◌}

-- A cell of a row: a number, a text, or NULL.
pub data Cell (F : Type 0) : Type 0 where
  null : Cell F
  num : F → Cell F
  text : String → Cell F

pub record NumericSpec (F : Type 0) : Type 0 where
  pub edges : List F
  pub proportions : List F

pub record Reference (F : Type 0) : Type 0 where
  pub numeric : List (String × NumericSpec F)
  pub categorical : List (String × List (String × F))

abbrev pub Row : Type 0 → Type 0
Row F = List (String × Cell F)

-- `row.get(column)`, with None for a missing key
unfoldable pub cell : {F : Type 0} → String → Row F → Cell F
cell column [] = null
cell column ((name, c) ∷ row) = if str_eq name column then c else cell column row

-- `d[key] = value`
unfoldable pub assign : {V : Type 0} → String → V → List (String × V) → List (String × V)
assign key value [] = (key, value) ∷ []
assign key value ((k, v) ∷ d) = if str_eq k key then (k, value) ∷ d else (k, v) ∷ assign key value d

-- the numbers in a column
unfoldable pub numbers : {F : Type 0} → List (Cell F) → List F
numbers [] = []
numbers (num x ∷ cells) = x ∷ numbers cells
numbers (null ∷ cells) = numbers cells
numbers (text s ∷ cells) = numbers cells

-- the values in a column that are not None
unfoldable pub present : {F : Type 0} → List (Cell F) → List (Cell F)
present [] = []
present (null ∷ cells) = present cells
present (num x ∷ cells) = num x ∷ present cells
present (text s ∷ cells) = text s ∷ present cells

-- The counts of the categories, in order, and of everything else. `observed[key] += 1`, or
-- `other += 1`.
unfoldable pub observe : String → List (String × ℕ) → ℕ → List (String × ℕ) × ℕ
observe key [] other = ([], other + 1)
observe key ((c, n) ∷ observed) other =
    let (rest, other') = observe key observed other in
    if str_eq c key then ((c, n + 1) ∷ observed, other) else ((c, n) ∷ rest, other')

module _ {F : Type 0} (fl : Floats F) (k : Constants F) where
  -- The key of a value: a text is looked up as it is, a number as `str(value)`.
  unfoldable pub key_of : Cell F → String
  key_of (text s) = s
  key_of (num x) = fl.repr x
  key_of null = "None"

  unfoldable pub observe_all : List (Cell F) → List (String × ℕ) → ℕ → List (String × ℕ) × ℕ
  unfolding observe key_of
  observe_all [] observed other = (observed, other)
  observe_all (value ∷ values) observed other =
      let (observed', other') = observe (key_of value) observed other in
      observe_all values observed' other'

  -- `sum`, from a total
  unfoldable pub sum_from : F → List F → F
  sum_from total [] = total
  sum_from total (x ∷ xs) = sum_from (fl.add total x) xs

  abbrev pub is_common : String × F → Bool
  is_common entry = not (lt fl entry.1 k.min_expected_share)

  -- The loop body for a numeric column. `none` is an exception.
  unfoldable pub score_numeric : NumericSpec F → List F → Option F
  unfolding count_values psi
  score_numeric spec values = do
    counts ← count_values fl values spec.edges (replicate (length spec.edges - 1) 0)
    psi fl k spec.proportions (map (λ c. fl.ratio c (length values)) counts)

  -- The loop body for a categorical column.
  unfoldable pub score_categorical : List (String × F) → List (Cell F) → Option F
  unfolding observe_all sum_from psi
  score_categorical expected_map values =
      let common = filter is_common expected_map in
      let rare = filter (λ entry. not (is_common entry)) expected_map in
      let (observed, other) = observe_all values (map (λ entry. (entry.0, 0)) common) 0 in
      let total = length values in
      psi fl k
        (map (λ entry. entry.1) common ++ sum_from k.zero_float (map (λ entry. entry.1) rare) ∷ [])
        (map (λ entry. fl.ratio entry.1 total) observed ++ fl.ratio other total ∷ [])

  unfoldable pub numeric_scores :
      List (String × NumericSpec F) → List (Row F) → List (String × F) → Option (List (String × F))
  unfolding score_numeric cell numbers assign
  numeric_scores [] sample scores = some scores
  numeric_scores ((column, spec) ∷ rest) sample scores =
      let values = numbers (map (cell column) sample) in
      let skipped = numeric_scores rest sample scores in
      let scored : Option (List (String × F)) = score_numeric spec values >>= λ value.
      numeric_scores rest sample (assign column value scores) in
      elim values [ [] ↦ skipped | _ ∷ _ ↦ scored ]

  unfoldable pub categorical_scores :
      List (String × List (String × F))
      → List (Row F)
      → List (String × F)
      → Option (List (String × F))
  unfolding score_categorical cell present assign
  categorical_scores [] sample scores = some scores
  categorical_scores ((column, expected_map) ∷ rest) sample scores =
      let values = present (map (cell column) sample) in
      let skipped = categorical_scores rest sample scores in
      let scored : Option (List (String × F)) = score_categorical expected_map values >>= λ value.
      categorical_scores rest sample (assign column value scores) in
      elim values [ [] ↦ skipped | _ ∷ _ ↦ scored ]

  unfoldable pub feature_scores : Reference F → List (Row F) → Option (List (String × F))
  unfolding numeric_scores categorical_scores
  feature_scores reference sample = do
    scores ← numeric_scores reference.numeric sample []
    categorical_scores reference.categorical sample scores
