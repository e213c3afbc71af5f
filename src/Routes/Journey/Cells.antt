-- ===== src/Routes/Journey/Cells.antt =====
-- Rows of `predictions` by the cells that an INSERT sets.
use fast_api_project.Prelude.{
  ℕ, ◌≡◌, refl, sym, ap, ◌∙◌, Bool, true, not, List, [], ◌∷◌, ◌++◌, map, filter, all, length, ◌==◌,
  arith, Bool-cases, inl, inr,
}
use fast_api_project.Schemas.{CarFeatures}
use fast_api_project.Repository.{Prediction, holds, matches, unscored}
use fast_api_project.Repository.Actuals.{rows_of, unscored_rows, unscored_rows-le}
use fast_api_project.Routes.Predict.{LoggedPrediction}
use fast_api_project.Routes.Journey.{inserted, cells}

module _ {A B : Type 0} (f : A → B) where
  pub map-append : (xs ys : List A) → map f (xs ++ ys) ≡ map f xs ++ map f ys
  map-append [] ys = refl
  map-append (x ∷ xs) ys = ap (◌∷◌ (f x)) (map-append xs ys)

  map-one : (xs : List A) (b : B) → map f xs ≡ b ∷ [] → (a : A) × (xs ≡ a ∷ []) × (f a ≡ b)
  map-one [] b h = cc
  map-one (x ∷ []) b h = (x, refl, cc)
  map-one (x ∷ y ∷ xs) b h = absurd (cc)

module _ {A : Type 0} (p : A → Bool) where
  pub filter-append : (xs ys : List A) → filter p (xs ++ ys) ≡ filter p xs ++ filter p ys
  filter-append [] ys = refl
  filter-append (x ∷ xs) ys = elim (Bool-cases (p x)) [
    | inl kept ↦ rw kept (ap (◌∷◌ x) (filter-append xs ys))
    | inr out ↦ rw out (filter-append xs ys)
  ]

module _ {F : Type 0} (public_id : ℕ) where
  unscored_rows-cells :
      (rows : List (Prediction F))
      → map cells (unscored_rows public_id rows) ≡ unscored_rows public_id (map cells rows)
  unfolding holds unscored
  unscored_rows-cells [] = refl
  unscored_rows-cells (r ∷ rows) = elim (Bool-cases (matches (unscored public_id) r)) [
    | inl kept ↦ rw kept (ap (◌∷◌ (cells r)) (unscored_rows-cells rows))
    | inr out ↦ rw out (unscored_rows-cells rows)
  ]

  unscored_rows-none :
      (rows : List (Prediction F)) → rows_of public_id rows ≡ [] → unscored_rows public_id rows ≡ []
  unscored_rows-none rows h =
      go (unscored_rows public_id rows)
        (omega (arith, unscored_rows-le public_id rows, ap length h))
    where
      go : (xs : List (Prediction F)) → length xs ≡ 0 → xs ≡ []
      go [] e = refl
      go (x ∷ xs) e = absurd (omega (arith, e))

  -- no row of the list has the id
  abbrev pub lacks : List (LoggedPrediction (CarFeatures F) F) → Bool
  lacks = all (λ logged. not (logged.public_id == public_id))

  module _ (numeric : F → F) (accepted : LoggedPrediction (CarFeatures F) F → Bool) where
    unscored_rows-lacks :
        (queue : List (LoggedPrediction (CarFeatures F) F))
        → lacks queue ≡ true
        → unscored_rows public_id (map (inserted numeric) (filter accepted queue)) ≡ []
    unfolding holds unscored
    unscored_rows-lacks [] h = refl
    unscored_rows-lacks (logged ∷ queue) h = elim (Bool-cases (accepted logged)) [
      | inl kept ↦ rw kept (ground (arith, unscored_rows-lacks queue))
      | inr out ↦ rw out (unscored_rows-lacks queue (ground arith))
    ]

    -- Where a table with no row of the id gains the accepted rows of a queue, of which the last alone has
    -- the id, one row of the table has the id and no price, and its cells are as they were inserted.
    pub one_unscored :
        (before after : List (Prediction F)) (queue : List (LoggedPrediction (CarFeatures F) F))
        (row : LoggedPrediction (CarFeatures F) F)
        → map cells after
          ≡ map cells before ++ map (inserted numeric) (filter accepted (queue ++ row ∷ []))
        → rows_of public_id before ≡ []
        → lacks queue ≡ true
        → accepted row ≡ true
        → row.public_id ≡ public_id
        → (r : Prediction F) × (unscored_rows public_id after ≡ r ∷ [])
          × (cells r ≡ inserted numeric row)
    unfolding holds unscored
    one_unscored before after queue row e fresh lacking fits mine =
        let q = map (inserted numeric) (filter accepted queue) in
        let last : filter accepted (row ∷ []) ≡ row ∷ [] = rw fits refl in
        let split : map (inserted numeric) (filter accepted (queue ++ row ∷ []))
            ≡ q ++ inserted numeric row ∷ [] =
          ap (map (inserted numeric))
            (filter-append accepted queue (row ∷ []) ∙ ap (λ l. filter accepted queue ++ l) last)
          ∙ map-append (inserted numeric) (filter accepted queue) (row ∷ []) in
        let p = matches {N = F} (unscored public_id) in
        let mine_holds : filter p (inserted numeric row ∷ []) ≡ inserted numeric row ∷ [] =
          ground arith in
        let none_before : filter p (map cells before) ≡ [] =
          sym (unscored_rows-cells before) ∙ ap (map cells) (unscored_rows-none before fresh) in
        let none_queued : filter p q ≡ [] = unscored_rows-lacks queue lacking in
        let whole : map cells (unscored_rows public_id after) ≡ inserted numeric row ∷ [] =
          unscored_rows-cells after
          ∙ ap (filter p) (e ∙ ap (λ l. map cells before ++ l) split)
          ∙ filter-append p (map cells before) (q ++ inserted numeric row ∷ [])
          ∙ ap (λ l. l ++ filter p (q ++ inserted numeric row ∷ [])) none_before
          ∙ filter-append p q (inserted numeric row ∷ [])
          ∙ ap (λ l. l ++ filter p (inserted numeric row ∷ [])) none_queued
          ∙ mine_holds in
        map-one cells (unscored_rows public_id after) (inserted numeric row) whole
