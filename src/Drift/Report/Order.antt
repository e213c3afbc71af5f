-- ===== src/Drift/Report/Order.antt =====
-- The order of the features in a report of app/services/drift.py.
use mathlib.Core.List.{Perm}
use mathlib.Core.List.Perm
use fast_api_project.Prelude.{◌≡◌, String, true, List, [], ◌∷◌, All, Bool-cases, inl, inr, arith}
use fast_api_project.Floats.{Floats, IsOrdered}
use fast_api_project.Drift.{Constants}
use fast_api_project.Drift.Report.{insert_desc, sort_desc}

module _ {F : Type 0} (fl : Floats F) (k : Constants F) where
  -- each score is at least all those after it
  abbrev pub IsDescending : List (String × F) → Type 0
  IsDescending [] = Unit
  IsDescending (e ∷ rest) = All (λ f. fl.le f.1 e.1 ≡ true) rest × IsDescending rest

  All-weaken :
      (x y : F) (es : List (String × F))
      → IsOrdered fl
      → fl.le x y ≡ true
      → All (λ f. fl.le f.1 x ≡ true) es
      → All (λ f. fl.le f.1 y ≡ true) es
  All-weaken x y [] ordered h a = tt
  All-weaken x y (e ∷ es) ordered h (here, a) =
      (ordered.le_trans e.1 x y here h, All-weaken x y es ordered h a)

  pub insert_desc-All :
      (y : F) (e : String × F) (es : List (String × F))
      → fl.le e.1 y ≡ true
      → All (λ f. fl.le f.1 y ≡ true) es
      → All (λ f. fl.le f.1 y ≡ true) (insert_desc fl k e es)
  unfolding insert_desc
  insert_desc-All y e [] h a = (h, tt)
  insert_desc-All y e (f ∷ es) h (here, a) = elim (Bool-cases (fl.le f.1 e.1)) [
    | inl first ↦ rw first (h, (here, a))
    | inr later ↦ rw later (here, insert_desc-All y e es h a)
  ]

  insert_desc-IsDescending :
      (e : String × F) (es : List (String × F))
      → IsOrdered fl
      → IsDescending es
      → IsDescending (insert_desc fl k e es)
  unfolding insert_desc
  insert_desc-IsDescending e [] ordered d = (tt, tt)
  insert_desc-IsDescending e (f ∷ es) ordered (here, d) = elim (Bool-cases (fl.le f.1 e.1)) [
    | inl first ↦ rw first ((first, All-weaken f.1 e.1 es ordered first here), (here, d))
    | inr later ↦
        let above : fl.le e.1 f.1 ≡ true = ground (arith, ordered.le_total e.1 f.1) in
        rw later (insert_desc-All f.1 e es above here, insert_desc-IsDescending e es ordered d)
  ]

  insert_desc-perm :
      (e : String × F) (es : List (String × F)) → Perm (insert_desc fl k e es) (e ∷ es)
  unfolding insert_desc
  insert_desc-perm e [] = Perm.refl _
  insert_desc-perm e (f ∷ es) = elim (Bool-cases (fl.le f.1 e.1)) [
    | inl first ↦ rw first (Perm.refl _)
    | inr later ↦ rw later (Perm.trans (Perm.cons f (insert_desc-perm e es)) (Perm.swap e f es))
  ]

  sort_desc-IsDescending :
      (es : List (String × F)) → IsOrdered fl → IsDescending (sort_desc fl k es)
  unfolding sort_desc
  sort_desc-IsDescending [] ordered = tt
  sort_desc-IsDescending (e ∷ es) ordered =
      insert_desc-IsDescending e _ ordered (sort_desc-IsDescending es ordered)

  sort_desc-perm : (es : List (String × F)) → Perm (sort_desc fl k es) es
  unfolding sort_desc
  sort_desc-perm [] = Perm.refl []
  sort_desc-perm (e ∷ es) =
      Perm.trans (insert_desc-perm e (sort_desc fl k es)) (Perm.cons e (sort_desc-perm es))

  -- For ordered floats, sorting keeps the scores, each as often, and puts each before all that
  -- are smaller.
  pub sort_desc-sorts :
      (es : List (String × F))
      → IsOrdered fl
      → IsDescending (sort_desc fl k es) × Perm (sort_desc fl k es) es
  sort_desc-sorts es ordered = (sort_desc-IsDescending es ordered, sort_desc-perm es)
