-- ===== src/Training/Sweep/Pick.antt =====
-- The choice of training/sweep.py.
use fast_api_project.Prelude.{
  ℕ, drop, ◌<◌, length, zero, suc, sym, ◌∙◌, ap, All, get_elem?, ◌≡◌, refl, Bool, true, Option,
  none, some, List, [], ◌∷◌, filter, Bool-cases, inl, inr, arith,
}
use mathlib.Core.Path.{subst}
use fast_api_project.Floats.{Floats, IsOrdered, lt}
use fast_api_project.Training.Sweep.{
  Candidate, Lab, candidate, grid, tree_counts, depths, min_by, smallest, best_of, threshold_of,
  pick, sweep,
}

module _ {F : Type 0} (fl : Floats F) where
  -- being one of the candidates
  abbrev pub IsOneOf : Candidate F → List (Candidate F) → Type 0
  IsOneOf c cs = (i : ℕ) × (get_elem? cs i ≡ some c)

  IsOneOf-skip :
      (b c : Candidate F) (cs : List (Candidate F)) {r : Candidate F}
      → IsOneOf r (b ∷ cs)
      → IsOneOf r (b ∷ c ∷ cs)
  IsOneOf-skip b c cs (zero, e) = (0, e)
  IsOneOf-skip b c cs (suc i, e) = (suc (suc i), e)

  min_by-IsOneOf :
      (key : Candidate F → F) (best : Candidate F) (cs : List (Candidate F))
      → IsOneOf (min_by fl key best cs) (best ∷ cs)
  unfolding min_by
  min_by-IsOneOf key best [] = (0, refl)
  min_by-IsOneOf key best (c ∷ cs) = elim (Bool-cases (lt fl (key c) (key best))) [
    | inl less ↦ rw less (let (i, e) = min_by-IsOneOf key c cs in (suc i, e))
    | inr more ↦ rw more (IsOneOf-skip best c cs (min_by-IsOneOf key best cs))
  ]

  abbrev passes : (Candidate F → Bool) → Option (Candidate F) → Bool
  passes p none = true
  passes p (some r) = p r

  IsOneOf-kept :
      (p : Candidate F → Bool) (c : Candidate F) (cs : List (Candidate F)) {r : Candidate F}
      → p c ≡ true
      → (IsOneOf r (filter p cs) → IsOneOf r cs × (p r ≡ true))
      → IsOneOf r (c ∷ filter p cs)
      → IsOneOf r (c ∷ cs) × (p r ≡ true)
  IsOneOf-kept p c cs h rest (zero, e) = ((0, e), ap (passes p) (sym e) ∙ h)
  IsOneOf-kept p c cs h rest (suc i, e) =
      let (one, good) = rest (i, e) in ((suc one.0, one.1), good)

  filter-IsOneOf :
      (p : Candidate F → Bool) (cs : List (Candidate F)) {r : Candidate F}
      → IsOneOf r (filter p cs)
      → IsOneOf r cs × (p r ≡ true)
  filter-IsOneOf p [] (i, e) = ((i, e), ap (passes p) (sym e))
  filter-IsOneOf p (c ∷ cs) (i, e) = elim (Bool-cases (p c)) [
    | inl kept ↦ IsOneOf-kept p c cs kept (filter-IsOneOf p cs) (i, rw kept at e)
    | inr gone ↦
        let (one, good) = filter-IsOneOf p cs (i, rw gone at e) in ((suc one.0, one.1), good)
  ]

  filter-some :
      (p : Candidate F → Bool) (cs : List (Candidate F)) (i : ℕ) {r : Candidate F}
      → get_elem? cs i ≡ some r
      → p r ≡ true
      → 0 < length (filter p cs)
  filter-some p [] i {r} e h = absurd (grind arith)
  filter-some p (c ∷ cs) zero {r} e h =
      let kept : p c ≡ true = ap (passes p) e ∙ h in rw kept (omega arith)
  filter-some p (c ∷ cs) (suc i) {r} e h = ground (arith, filter-some p cs i e h)

  All-IsOneOf :
      (P : Candidate F → Type 0) (cs : List (Candidate F)) {r : Candidate F}
      → All P cs
      → (i : ℕ) → get_elem? cs i ≡ some r
      → P r
  All-IsOneOf P [] a i e = absurd (grind arith)
  All-IsOneOf P (c ∷ cs) (here, a) zero e =
      subst (λ (o : Option (Candidate F)). elim o [ none ↦ Unit | some x ↦ P x ]) e here
  All-IsOneOf P (c ∷ cs) (here, a) (suc i) e = All-IsOneOf P cs a i e

  module _ (ordered : IsOrdered fl) where
    le_refl : (x : F) → fl.le x x ≡ true
    le_refl x = ground (arith, ordered.le_total x x)

    -- the least is at most what the search starts from, and at most each candidate
    min_by-le :
        (key : Candidate F → F) (best : Candidate F) (cs : List (Candidate F))
        → fl.le (key (min_by fl key best cs)) (key best) ≡ true
    unfolding min_by
    min_by-le key best [] = le_refl (key best)
    min_by-le key best (c ∷ cs) = elim (Bool-cases (lt fl (key c) (key best))) [
      | inl less ↦
          let below : fl.le (key c) (key best) ≡ true =
            ground (arith, less, ordered.le_total (key c) (key best)) in
          rw less (ordered.le_trans _ (key c) (key best) (min_by-le key c cs) below)
      | inr more ↦ rw more (min_by-le key best cs)
    ]

    -- what is at most the least is at most each candidate
    min_by-All :
        (key : Candidate F → F) (x : F) (best : Candidate F) (cs : List (Candidate F))
        → fl.le x (key (min_by fl key best cs)) ≡ true
        → All (λ r. fl.le x (key r) ≡ true) cs
    unfolding min_by
    min_by-All key x best [] h = tt
    min_by-All key x best (c ∷ cs) h = elim (Bool-cases (lt fl (key c) (key best))) [
      | inl less ↦
          let h' : fl.le x (key (min_by fl key c cs)) ≡ true = rw less at h in
          (ordered.le_trans x _ (key c) h' (min_by-le key c cs), min_by-All key x c cs h')
      | inr more ↦
          let h' : fl.le x (key (min_by fl key best cs)) ≡ true = rw more at h in
          let above : fl.le (key best) (key c) ≡ true = ground (arith, more) in
          (
            ordered.le_trans x (key best) (key c)
                (ordered.le_trans x _ (key best) h' (min_by-le key best cs)) above,
            min_by-All key x best cs h',
          )
    ]

    min_by-least :
        (key : Candidate F → F) (best : Candidate F) (cs : List (Candidate F))
        → All (λ r. fl.le (key (min_by fl key best cs)) (key r) ≡ true) (best ∷ cs)
    min_by-least key best cs = (min_by-le key best cs, min_by-All key _ best cs (le_refl _))

    smallest-least :
        (cs : List (Candidate F))
        → 0 < length cs
        → (picked : Candidate F) × (smallest fl cs ≡ some picked)
          × (IsOneOf picked cs)
          × All (λ r. fl.le picked.mb r.mb ≡ true) cs
    smallest-least [] h = absurd (omega arith)
    smallest-least (c ∷ cs) h =
        (_, refl, min_by-IsOneOf (λ r. r.mb) c cs, min_by-least (λ r. r.mb) c cs)

    pick-IsSmallest :
        (first : Candidate F) (rest : List (Candidate F))
        → fl.le (best_of fl first rest).mae (threshold_of fl (best_of fl first rest)) ≡ true
        → (let close : Candidate F → Bool =
              λ r. fl.le r.mae (threshold_of fl (best_of fl first rest)) in
            (picked : Candidate F) × (pick fl first rest ≡ some picked)
            × (IsOneOf picked (first ∷ rest))
            × (close picked ≡ true)
            × All (λ r. fl.le picked.mb r.mb ≡ true) (filter close (first ∷ rest))
            × All (λ r. fl.le (best_of fl first rest).mae r.mae ≡ true) (first ∷ rest))
    unfolding pick
    pick-IsSmallest first rest h =
        let close : Candidate F → Bool =
          λ r. fl.le r.mae (threshold_of fl (best_of fl first rest)) in
        let (i, at) = min_by-IsOneOf (λ r. r.mae) first rest in
        let (picked, found, one, least) =
          smallest-least (filter close (first ∷ rest)) (filter-some close (first ∷ rest) i at h) in
        let (among, near) = filter-IsOneOf close (first ∷ rest) one in
        (picked, found, among, near, least, min_by-least (λ r. r.mae) first rest)

    -- For ordered floats, and where a standard error takes no sum below its first term: the sweep picks a
    -- configuration of the grid. Its error is within one standard error of the least one, and no
    -- configuration within that has a smaller artifact.
    pub sweep-IsSmallest :
        (lab : Lab F)
        → All (λ r. fl.le r.mae (threshold_of fl r) ≡ true) (grid lab tree_counts depths)
        → (let results = grid lab tree_counts depths in
            (best picked : Candidate F) × (sweep fl lab ≡ some picked)
            × (IsOneOf best results)
            × (All (λ r. fl.le best.mae r.mae ≡ true) results)
            × (IsOneOf picked results)
            × (fl.le picked.mae (threshold_of fl best) ≡ true)
            × All
                (λ r. fl.le picked.mb r.mb ≡ true)
                (filter (λ r. fl.le r.mae (threshold_of fl best)) results))
    unfolding sweep grid
    sweep-IsSmallest lab h =
        let first = candidate lab 50 8 in
        let rest = drop 1 (grid lab tree_counts depths) in
        let best = min_by-IsOneOf (λ r. r.mae) first rest in
        let in_reach =
          All-IsOneOf (λ r. fl.le r.mae (threshold_of fl r) ≡ true) (first ∷ rest) h best.0
            best.1 in
        let (picked, found, among, near, least, lowest) = pick-IsSmallest first rest in_reach in
        (best_of fl first rest, picked, found, best, lowest, among, near, least)
