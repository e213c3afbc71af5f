-- ===== src/Drift/Report.antt =====
-- `report` of app/services/drift.py: what the drift endpoint and the gauges show.
pub mod Order
pub mod Severity
use fast_api_project.Prelude.{
  ℕ, String, Bool, true, false, ◌&&◌, Option, none, some, List, [], ◌∷◌, map, leb, if◌then◌else◌,
}
use fast_api_project.Floats.{Floats, max_float}
use fast_api_project.Drift.{Constants, Status, classify}

pub record FeatureDrift (F : Type 0) : Type 0 where
  pub feature : String
  pub psi : F
  pub status : Status

pub record DriftReport (F : Type 0) : Type 0 where
  pub configured : Bool
  pub window_samples : ℕ
  pub min_samples : ℕ
  pub ready : Bool
  pub worst_psi : F
  pub status : Status
  pub features : List (FeatureDrift F)

abbrev pub is_some : {A : Type 0} → Option A → Bool
is_some none = false
is_some (some a) = true

abbrev pub non_empty : {A : Type 0} → List A → Bool
non_empty [] = false
non_empty (x ∷ xs) = true

module _ {F : Type 0} (fl : Floats F) (k : Constants F) where
  -- `sorted(items, key=lambda kv: -kv[1])`, which is stable
  unfoldable pub insert_desc : String × F → List (String × F) → List (String × F)
  insert_desc e [] = e ∷ []
  insert_desc e (f ∷ rest) =
      let later = insert_desc e rest in if fl.le f.1 e.1 then e ∷ f ∷ rest else f ∷ later

  unfoldable pub sort_desc : List (String × F) → List (String × F)
  unfolding insert_desc
  sort_desc [] = []
  sort_desc (e ∷ rest) = insert_desc e (sort_desc rest)

  -- the loop of `max`, from the first value
  unfoldable pub max_from : F → List (String × F) → F
  max_from best [] = best
  max_from best (e ∷ rest) = max_from (max_float fl best e.1) rest

  -- `max(shown.values(), default=0.0)`
  unfoldable pub worst_of : List (String × F) → F
  unfolding max_from
  worst_of [] = k.zero_float
  worst_of (e ∷ rest) = max_from e.1 rest

  unfoldable pub feature_drift : String × F → FeatureDrift F
  feature_drift e = record { feature = e.0; psi = fl.round e.1 4; status = classify fl k e.1 }

  -- The reference is `none` where the dictionary is empty.
  unfoldable pub report : {R : Type 0} → Option R → List (String × F) → ℕ → ℕ → DriftReport F
  unfolding sort_desc worst_of feature_drift
  report reference scores samples min_samples =
      let ready = is_some reference && (leb min_samples samples && non_empty scores) in
      let shown = if ready then scores else [] in
      let worst = worst_of shown in
      record {
        configured = is_some reference;
        window_samples = samples;
        min_samples = min_samples;
        ready = ready;
        worst_psi = fl.round worst 4;
        status = if non_empty shown then classify fl k worst else Status.unknown;
        features = map feature_drift (sort_desc shown);
      }
