-- ===== src/Drift/Examples.antt =====
-- The drift detection of app/services/drift.py on whole percents: natural numbers stand for the
-- floats, and the logarithm of a quotient is how far it is above 1.
use native.Mathlib.Nat.{div-le_of_le-mul}
use fast_api_project.Prelude.{
  ℕ, ◌+◌, ◌-◌, ◌*◌, ◌/◌, ◌≤◌, ◌≡◌, refl, String, true, false, some, List, [], ◌∷◌, All, leb,
  if◌then◌else◌, arith,
}
use fast_api_project.Floats.{Floats, IsOrdered, HasSigns}
use fast_api_project.Drift.{
  Constants, Status, classify, psi_from, psi, bisect, last_edge, increment, bucket, count_values,
}
use fast_api_project.Drift.Bucket.{IsBin, bucket-IsBin}
use fast_api_project.Drift.Psi.{psi-total, psi_nonneg}
use fast_api_project.Drift.Scores.{
  num, text, null, Reference, Row, observe, key_of, observe_all, score_numeric, score_categorical,
  numeric_scores, categorical_scores, feature_scores, cell, assign, numbers, present, sum_from,
}
use fast_api_project.Drift.Scores.Total.{IsWellFormed}
use fast_api_project.Drift.Report.{
  insert_desc, sort_desc, max_from, worst_of, feature_drift, report,
}
use fast_api_project.Drift.Report.Severity.{severity, report-status}

abbrev pub percents : Floats ℕ
percents = record {
  le = leb;
  add = λ a b. a + b;
  sub = λ a b. a - b;
  mul = λ a b. a * b;
  div = λ a b. a / b;
  log = λ a. a - 1;
  abs = λ a. a;
  of_nat = λ n. n;
  ratio = λ a b. 100 * a / b;
  round = λ a n. a;
  repr = λ a. if leb a 4 then "4" else "5";
}

abbrev pub constants : Constants ℕ
constants = record {
  stable = 10;
  significant = 25;
  epsilon = 1;
  min_expected_share = 5;
  zero_float = 0;
}

pub percents-IsOrdered : IsOrdered percents
percents-IsOrdered = record { le_total = λ a b. ground arith; le_trans = λ a b c h k. ground arith }

div-le-one : (a e : ℕ) → 1 ≤ e → a ≤ e → a / e ≤ 1
div-le-one a e p h = div-le_of_le-mul e (omega arith)

percents-HasSigns : HasSigns percents 0
percents-HasSigns = record {
  term_up = λ e a p h. (ground arith, ground arith);
  term_down = λ e a p h. (ground arith, ground (arith, div-le-one a e));
  mul_up = λ x y h k. ground arith;
  mul_down = λ x y h k. ground arith;
  add_up = λ x y h k. ground arith;
}

program : Unit {0}
unfolding classify psi psi_from bisect last_edge increment bucket count_values feature_scores
    numeric_scores categorical_scores score_numeric score_categorical observe observe_all key_of
    cell assign numbers present sum_from report sort_desc insert_desc worst_of max_from
    feature_drift
program = tt

bucket-IsBin_example :
    (i : ℕ) × (bucket percents 25 (0 ∷ 10 ∷ 20 ∷ 30 ∷ []) ≡ some i)
    × (i + 2 ≤ 4)
    × (leb 25 0 ≡ true → i ≡ 0)
    × (leb 25 0 ≡ false → leb 30 25 ≡ true → i + 2 ≡ 4)
    × (leb 25 0 ≡ false → leb 30 25 ≡ false → IsBin percents 25 (0 ∷ 10 ∷ 20 ∷ 30 ∷ []) 0 i)
unfolding program
bucket-IsBin_example = bucket-IsBin percents 25 0 10 (20 ∷ 30 ∷ []) percents-IsOrdered

bucket-runs : bucket percents 25 (0 ∷ 10 ∷ 20 ∷ 30 ∷ []) ≡ some 2
unfolding program
bucket-runs = refl

abbrev pub trained : Reference ℕ
trained = record {
  numeric = ("year", record { edges = 0 ∷ 10 ∷ 20 ∷ []; proportions = 50 ∷ 50 ∷ [] }) ∷ [];
  categorical = ("fuel", ("Petrol", 60) ∷ ("Diesel", 38) ∷ ("LPG", 2) ∷ []) ∷ [];
}

abbrev pub live : List (Row ℕ)
live =
    (("year", num 5) ∷ ("fuel", text "Diesel") ∷ [])
    ∷ (("year", num 7) ∷ ("fuel", text "CNG") ∷ [])
    ∷ (("year", null) ∷ [])
    ∷ []

pub trained-IsWellFormed : IsWellFormed trained
trained-IsWellFormed = (record { two_edges = omega arith; matched = refl }, tt)

psi-runs : psi percents constants (20 ∷ 80 ∷ []) (60 ∷ 40 ∷ []) ≡ some 80
unfolding program
psi-runs = refl

psi_nonneg_example : leb 0 80 ≡ true
psi_nonneg_example =
    psi_nonneg percents constants 80 (20 ∷ 80 ∷ []) (60 ∷ 40 ∷ []) percents-IsOrdered
      percents-HasSigns refl psi-runs

psi-total_example : (t : ℕ) × (psi percents constants (20 ∷ 80 ∷ []) (60 ∷ 40 ∷ []) ≡ some t)
psi-total_example = psi-total percents constants (20 ∷ 80 ∷ []) (60 ∷ 40 ∷ []) refl

abbrev shifted : List (String × ℕ)
shifted = ("year", 12) ∷ ("fuel", 40) ∷ ("seats", 3) ∷ []

report-status_example :
    (let r = report percents constants (some tt) shifted 300 200 in
      All (λ f. severity f.status ≤ severity r.status) r.features
      × (r.ready ≡ false → (r.status ≡ Status.unknown) × (r.features ≡ []))
      × (r.ready ≡ true → 200 ≤ 300))
report-status_example =
    report-status percents constants (some tt) shifted 300 200 percents-IsOrdered

report-runs : (report percents constants (some tt) shifted 300 200).status ≡ Status.significant
unfolding program
report-runs = refl
