-- ===== src/Training/Sweep.antt =====
-- training/sweep.py: the grid, the scores of a configuration, and the pick. Cross-validation and the size
-- of an artifact are parameters; the table is left out.
pub mod Pick
use fast_api_project.Prelude.{
  ℕ, ◌<◌, length, zero, suc, sym, ◌∙◌, ap, All, get_elem?, ◌≡◌, refl, Bool, true, false, not,
  Option, none, some, List, [], ◌∷◌, ◌++◌, map, filter, Bool-cases, inl, inr, if◌then◌else◌, arith,
  tests,
}
use fast_api_project.Floats.{Floats, IsOrdered, lt}

abbrev pub tree_counts : List ℕ
tree_counts = 50 ∷ 100 ∷ 150 ∷ 200 ∷ []

abbrev pub depths : List ℕ
depths = 8 ∷ 10 ∷ 12 ∷ 14 ∷ 18 ∷ []

pub record Candidate (F : Type 0) : Type 0 where
  pub trees : ℕ
  pub depth : ℕ
  pub mae : F
  pub mae_se : F
  pub mb : F

-- mean and standard error of a configuration's error, and its artifact in megabytes
pub record Lab (F : Type 0) : Type 0 where
  pub cross_validate : (trees depth : ℕ) → F × F
  pub artifact_megabytes : (trees depth : ℕ) → F

module _ {F : Type 0} (lab : Lab F) where
  abbrev pub candidate : (trees depth : ℕ) → Candidate F
  candidate trees depth =
      let errors = lab.cross_validate trees depth in
      record {
        trees = trees;
        depth = depth;
        mae = errors.0;
        mae_se = errors.1;
        mb = lab.artifact_megabytes trees depth;
      }

  -- the two loops
  unfoldable pub grid : List ℕ → List ℕ → List (Candidate F)
  grid [] ds = []
  grid (trees ∷ ts) ds = map (candidate trees) ds ++ grid ts ds

module _ {F : Type 0} (fl : Floats F) where
  -- `min(…, key=key)`, from the first of the candidates
  unfoldable pub min_by : (Candidate F → F) → Candidate F → List (Candidate F) → Candidate F
  min_by key best [] = best
  min_by key best (c ∷ cs) = min_by key (if lt fl (key c) (key best) then c else best) cs

  -- `min` of nothing raises
  abbrev pub smallest : List (Candidate F) → Option (Candidate F)
  smallest [] = none
  smallest (c ∷ cs) = some (min_by (λ r. r.mb) c cs)

  abbrev pub best_of : Candidate F → List (Candidate F) → Candidate F
  best_of first rest = min_by (λ r. r.mae) first rest

  abbrev pub threshold_of : Candidate F → F
  threshold_of best = fl.add best.mae best.mae_se

  -- `pick`, from the results, of which there are some
  unfoldable pub pick : Candidate F → List (Candidate F) → Option (Candidate F)
  unfolding min_by
  pick first rest =
      smallest (filter (λ r. fl.le r.mae (threshold_of (best_of first rest))) (first ∷ rest))

-- `main`
unfoldable pub sweep : {F : Type 0} → Floats F → Lab F → Option (Candidate F)
unfolding grid pick
sweep fl lab = elim (grid lab tree_counts depths) [ [] ↦ none | first ∷ rest ↦ pick fl first rest ]
