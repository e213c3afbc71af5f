-- ===== src/Scripts/Demo/Sample.antt =====
-- `sample_in_distribution` of scripts/drift_demo.py. A row holds an int as the float of it, and an int below 0 is
-- 0, which the clamps at the end make no difference to. `random.choices`, `random.uniform` on floats, `int`
-- and `float` of a text are parameters.
use fast_api_project.Prelude.{
  ℕ, ◌+◌, ◌≤◌, ◌≡◌, refl, ap, ◌∙◌, String, true, false, ◌||◌, Option, none, some, List, [], ◌∷◌,
  map, get_elem?, min, max, str_eq, eq_refl, eq_iff, if◌then◌else◌, Option-cases, Bool-cases, inl,
  inr, arith,
}
use mathlib.Core.Path.{subst}
use fast_api_project.Floats.{Floats, IsOrdered, max_float}
use fast_api_project.Drift.{◌>>=◌}
use fast_api_project.Drift.Scores.{Cell, num, text, Row, Reference, NumericSpec, cell, assign}
use fast_api_project.Schemas.{one_of}

pub record Draws (F S : Type 0) : Type 0 where
  -- the place that `choices(…, weights, k=1)` takes
  pub choices : List F → S → ℕ × S
  pub uniform : (low high : F) → S → F × S
  -- `int(x)`, `int(round(x))`, and `float(text)`, `none` where it raises ValueError
  pub int : F → ℕ
  pub nearest : F → ℕ
  pub parse : String → Option F

-- the keys of NUMERIC_CASTS
abbrev pub cast_columns : List String
cast_columns =
    "year" ∷ "seats" ∷ "km_driven" ∷ "mileage_mpg" ∷ "engine_cc" ∷ "max_power_bhp" ∷ "torque_nm"
    ∷ []

-- `row[column]` of a number; a text there would be read by `int`, and no column of numbers holds one
unfoldable pub number_at : {F : Type 0} → String → Row F → Option F
unfolding cell
number_at column row = elim (cell column row) [ num x ↦ some x | _ ↦ none ]

module _ {F S : Type 0} (fl : Floats F) (d : Draws F S) where
  -- `NUMERIC_CASTS[column](float(value))`
  unfoldable pub cast : (column value : String) → Option (Cell F)
  unfolding one_of
  cast column value =
      if one_of column cast_columns
      then (d.parse value >>= λ x.
          some (num (if str_eq column "year" then fl.of_nat (d.int x) else x)))
      else some (text value)

  -- the first loop, from the row so far; `none` where the code raises
  unfoldable pub sample_categorical :
      List (String × List (String × F)) → Row F → S → Option (Row F × S)
  unfolding cast assign
  sample_categorical [] row s = some (row, s)
  sample_categorical ((column, proportions) ∷ rest) row s =
      let drawn = d.choices (map (λ p. p.1) proportions) s in
      get_elem? proportions drawn.0 >>= λ chosen.
      cast column chosen.0 >>= λ value. sample_categorical rest (assign column value row) drawn.1

  -- `int(round(value))` for a whole column, else `round(value, 1)`
  abbrev rounded : String → F → F
  rounded column value =
      if str_eq column "year" || str_eq column "seats"
      then fl.of_nat (d.nearest value)
      else fl.round value 1

  unfoldable pub sample_numeric : List (String × NumericSpec F) → Row F → S → Option (Row F × S)
  unfolding assign
  sample_numeric [] row s = some (row, s)
  sample_numeric ((column, spec) ∷ rest) row s =
      let drawn = d.choices spec.proportions s in
      get_elem? spec.edges drawn.0 >>= λ low. get_elem? spec.edges (drawn.0 + 1) >>= λ high.
      (let value = d.uniform low high drawn.1 in
        sample_numeric rest (assign column (num (rounded column value.0)) row) value.1)

  -- the three assignments at the end
  unfoldable pub clamp : Row F → Option (Row F)
  unfolding number_at assign
  clamp row = number_at "year" row >>= λ year.
      (let dated = assign "year" (num (fl.of_nat (max 1980 (min 2026 (d.int year))))) row in
        number_at "seats" dated >>= λ seats.
        (let seated = assign "seats" (num (fl.of_nat (max 1 (min 20 (d.int seats))))) dated in
          number_at "km_driven" seated >>= λ km.
          some (assign "km_driven" (num (max_float fl (fl.of_nat 1) km)) seated)))

  unfoldable pub sample_in_distribution : Reference F → S → Option (Row F × S)
  unfolding sample_categorical sample_numeric clamp
  sample_in_distribution reference s = sample_categorical reference.categorical [] s >>= λ first.
      sample_numeric reference.numeric first.0 first.1 >>= λ second.
      clamp second.0 >>= λ row. some (row, second.1)

module _ {F : Type 0} where
  cell-assign :
      (key : String) (value : Cell F) (row : Row F) → cell key (assign key value row) ≡ value
  unfolding cell assign
  cell-assign key value [] = rw (eq_refl key) refl
  cell-assign key value ((k, v) ∷ row) = elim (Bool-cases (str_eq k key)) [
    | inl here ↦ ground (arith, here)
    | inr there ↦ ground (arith, there, cell-assign key value row)
  ]

  cell-assign_other :
      (key other : String) (value : Cell F) (row : Row F)
      → str_eq key other ≡ false
      → cell other (assign key value row) ≡ cell other row
  unfolding cell assign
  cell-assign_other key other value [] h = rw h refl
  cell-assign_other key other value ((k, v) ∷ row) h = elim (Bool-cases (str_eq k key)) [
    | inl here ↦
        let e : k ≡ key = (eq_iff k key).0 here in
        let f : str_eq k other ≡ false = rw e h in rw (here, f) refl
    | inr there ↦ elim (Bool-cases (str_eq k other)) [
      | inl found ↦ rw (there, found) refl
      | inr missed ↦ rw (there, missed) (cell-assign_other key other value row h)
    ]
  ]

module _ {F S : Type 0} (fl : Floats F) (d : Draws F S) where
  -- a row whose year, seats and distance are within what the API asks of them
  abbrev pub InBounds : Row F → Type 0
  InBounds row =
      ((year : ℕ) × (cell "year" row ≡ num (fl.of_nat year)) × (1980 ≤ year) × (year ≤ 2026))
      × ((seats : ℕ) × (cell "seats" row ≡ num (fl.of_nat seats)) × (1 ≤ seats) × (seats ≤ 20))
      × ((km : F) × (cell "km_driven" row ≡ num km) × (fl.le (fl.of_nat 1) km ≡ true))

  max_float-ge : (a b : F) → IsOrdered fl → fl.le a (max_float fl a b) ≡ true
  max_float-ge a b ordered = elim (Bool-cases (fl.le b a)) [
    | inl below ↦ rw below (ground (arith, ordered.le_total a a))
    | inr above ↦ rw above (ground (arith, above, ordered.le_total a b))
  ]

  clamp-InBounds : (row out : Row F) → IsOrdered fl → clamp fl d row ≡ some out → InBounds out
  unfolding clamp
  clamp-InBounds row out ordered h = elim (Option-cases (number_at "year" row)) [
    | inl gone ↦ absurd (ground (arith, gone))
    | inr (year, y) ↦
        let years = max 1980 (min 2026 (d.int year)) in
        let dated = assign "year" (num (fl.of_nat years)) row in
        elim (Option-cases (number_at "seats" dated)) [
          | inl gone ↦ absurd (ground (arith, y, gone))
          | inr (seats, s) ↦
              let places = max 1 (min 20 (d.int seats)) in
              let seated = assign "seats" (num (fl.of_nat places)) dated in
              elim (Option-cases (number_at "km_driven" seated)) [
                | inl gone ↦ absurd (ground (arith, y, s, gone))
                | inr (km, k) ↦
                    let far = max_float fl (fl.of_nat 1) km in
                    let e : assign "km_driven" (num far) seated ≡ out = ground (arith, y, s, k) in
                    subst InBounds e (
                      (
                        years,
                        cell-assign_other "km_driven" "year" (num far) seated refl
                            ∙ cell-assign_other "seats" "year" (num (fl.of_nat places)) dated refl
                            ∙ cell-assign "year" (num (fl.of_nat years)) row,
                        omega arith,
                        omega arith,
                      ),
                      (
                        places,
                        cell-assign_other "km_driven" "seats" (num far) seated refl
                            ∙ cell-assign "seats" (num (fl.of_nat places)) dated,
                        omega arith,
                        omega arith,
                      ),
                      (
                        far,
                        cell-assign "km_driven" (num far) seated,
                        max_float-ge (fl.of_nat 1) km ordered,
                      ),
                    )
              ]
        ]
  ]

  -- For ordered floats, a row that was sampled has a year between 1980 and 2026, between 1 and 20 seats, and has
  -- run 1 km at least, whatever the training distribution holds.
  pub sample_in_distribution-InBounds :
      (reference : Reference F) (s s' : S) (out : Row F)
      → IsOrdered fl
      → sample_in_distribution fl d reference s ≡ some (out, s')
      → InBounds out
  unfolding sample_in_distribution
  sample_in_distribution-InBounds reference s s' out ordered h =
      elim (Option-cases (sample_categorical fl d reference.categorical [] s)) [
        | inl failed ↦ absurd (ground (arith, failed))
        | inr ((row, s₁), first) ↦
            elim (Option-cases (sample_numeric fl d reference.numeric row s₁)) [
              | inl failed ↦ absurd (ground (arith, first, failed))
              | inr ((row', s₂), second) ↦ elim (Option-cases (clamp fl d row')) [
                | inl failed ↦ absurd (ground (arith, first, second, failed))
                | inr (last, clamped) ↦
                    let e : last ≡ out = ground (arith, first, second, clamped) in
                    clamp-InBounds row' out ordered (clamped ∙ ap some e)
              ]
            ]
      ]
