-- ===== src/Scripts/Seed/Loads.antt =====
-- The two ways of scripts/seed_predictions.py to load rows load the same ones.
use fast_api_project.Prelude.{
  ℕ, zero, suc, ◌+◌, ◌-◌, min, ◌≤◌, ◌<◌, ◌≡◌, refl, ap, ◌∙◌, Bool, Option, none, some, List, [],
  ◌∷◌, ◌++◌, All, length, arith, lt→ltb,
}
use fast_api_project.Floats.{Floats}
use fast_api_project.Scripts.{Rng}
use fast_api_project.Scripts.Seed.{Cell, generate_row, generate, copy_load}

abbrev pub concat : {A : Type 0} → List (List A) → List A
concat [] = []
concat (xs ∷ xss) = xs ++ concat xss

zero-plus : {A : Type 0} (f : ℕ → A) (n : ℕ) → f (0 + n) ≡ f n
zero-plus f n = let e : 0 + n ≡ n = omega arith in ap f e

suc-plus : {A : Type 0} (f : ℕ → A) (m n : ℕ) → f (suc m + n) ≡ f (suc (m + n))
suc-plus f m n = ap f (omega arith)

module _ {F R : Type 0} (fl : Floats F) (rng : Rng F R) (below_0_6 : R → Bool × R)
    (user_ids : List ℕ) where
  abbrev rows : ℕ → R → List (List (Cell F))
  rows n r = (generate fl rng below_0_6 user_ids n r).0

  abbrev after : ℕ → R → R
  after n r = (generate fl rng below_0_6 user_ids n r).1

  pub rows-plus : (m n : ℕ) (r : R) → rows (m + n) r ≡ rows m r ++ rows n (after m r)
  unfolding generate
  rows-plus zero n r = zero-plus (λ k. rows k r) n
  rows-plus (suc m) n r =
      let (first, r') = generate_row fl rng below_0_6 user_ids r in
      suc-plus (λ k. rows k r) m n ∙ ap (λ more. first ∷ more) (rows-plus m n r')

  pub length-rows : (n : ℕ) (r : R) → length (rows n r) ≡ n
  unfolding generate
  length-rows zero r = refl
  length-rows (suc n) r = ap suc (length-rows n _)

  -- what a loop that has `rest` rows to go ends with
  abbrev Loads : (chunk rest : ℕ) → R → Option (List (List (List (Cell F))) × R) → Type 0
  Loads chunk rest r out =
      (batches : List (List (List (Cell F)))) × (out ≡ some (batches, after rest r))
      × (concat batches ≡ rows rest r)
      × All (λ batch. (1 ≤ length batch) × (length batch ≤ chunk)) batches

  -- With a chunk of no rows the loop never ends: no fuel is enough.
  copy_load-none :
      (fuel total loaded : ℕ) (r : R)
      → loaded < total
      → copy_load fl rng below_0_6 user_ids fuel total 0 loaded r ≡ none
  unfolding copy_load generate
  copy_load-none zero total loaded r h = rw (lt→ltb loaded total h)
  copy_load-none (suc fuel) total loaded r h =
      let stuck =
        copy_load-none fuel total (loaded + min 0 (total - loaded))
          (after (min 0 (total - loaded)) r) (omega arith) in
      rw (lt→ltb loaded total h, stuck)
