-- ===== src/Scripts/Seed/Fills.antt =====
-- What a run of scripts/seed_predictions.py leaves in the table of predictions.
use fast_api_project.Prelude.{ℕ, String, Bool, List, [], if◌then◌else◌}
use fast_api_project.Floats.{Floats}
use fast_api_project.Scripts.{Rng, IsDocumented}
use fast_api_project.Scripts.Seed.{Cell, generate}
use fast_api_project.Scripts.Seed.Run.{Database, Args}
use fast_api_project.Scripts.Seed.Sends.{IsPostgres}

module _ {F S : Type 0} (db : Database F S) (decimal : ℕ → String) (free : String → S → Type 0)
    (is_user : ℕ → S → Type 0) (rows_of : S → List (List (Cell F)))
    (law : IsPostgres db decimal free is_user rows_of) where
  module _ {R : Type 0} (fl : Floats F) (rng : Rng F R) (doc : IsDocumented fl rng)
      (below_0_6 : R → Bool × R) where
    abbrev pub made : List ℕ → ℕ → R → List (List (Cell F))
    made ids n r = (generate fl rng below_0_6 ids n r).0

    abbrev after : List ℕ → ℕ → R → R
    after ids n r = (generate fl rng below_0_6 ids n r).1

    -- the rows that are inserted one by one
    abbrev pub compared : Args → ℕ
    compared args = if args.compare then args.compare_rows else 0

    abbrev pub kept : Args → S → List (List (Cell F))
    kept args s = if args.truncate then [] else rows_of s
