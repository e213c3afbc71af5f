-- ===== src/Repository/Actuals.antt =====
-- `record_actual` and `exists` of app/db/repositories.py over the rows of the table.
use fast_api_project.Prelude.{
  ℕ, ◌≤◌, ◌≡◌, refl, ◌∙◌, ap, Bool, true, false, none, some, List, [], ◌∷◌, map, filter, length,
  if◌then◌else◌, Bool-cases, inl, inr, arith,
}
use fast_api_project.Exceptions.{ok}
use fast_api_project.Repository.{
  Prediction, public_id_is, Engine, IsSql, holds, matches, unscored, record_actual, exists,
}

module _ {N : Type 0} (public_id : ℕ) where
  -- the rows of one prediction, and those of them with no price yet
  abbrev pub rows_of : List (Prediction N) → List (Prediction N)
  rows_of = filter (matches (public_id_is public_id ∷ []))

  abbrev pub unscored_rows : List (Prediction N) → List (Prediction N)
  unscored_rows = filter (matches (unscored public_id))

  -- what the UPDATE makes of a row
  abbrev pub settle : N → Prediction N → Prediction N
  settle price row =
      if matches (unscored public_id) row then record row { actual_price = some price } else row

  map-settle_idle :
      (price : N) (rows : List (Prediction N))
      → unscored_rows rows ≡ []
      → map (settle price) rows ≡ rows
  map-settle_idle price [] h = refl
  map-settle_idle price (r ∷ rows) h = elim (Bool-cases (matches (unscored public_id) r)) [
    | inl changed ↦ absurd (ground (arith, changed))
    | inr kept ↦ rw kept (ap (◌∷◌ r) (map-settle_idle price rows (ground (arith, kept))))
  ]

  -- the UPDATE leaves no row without a price, and no row out
  pub unscored_rows-settle :
      (price : N) (rows : List (Prediction N)) → unscored_rows (map (settle price) rows) ≡ []
  unfolding holds unscored
  unscored_rows-settle price [] = refl
  unscored_rows-settle price (r ∷ rows) = ground (arith, unscored_rows-settle price rows)

  pub length-rows_of-settle :
      (price : N) (rows : List (Prediction N))
      → length (rows_of (map (settle price) rows)) ≡ length (rows_of rows)
  unfolding holds unscored
  length-rows_of-settle price [] = refl
  length-rows_of-settle price (r ∷ rows) = ground (arith, length-rows_of-settle price rows)

  pub unscored_rows-le :
      (rows : List (Prediction N)) → length (unscored_rows rows) ≤ length (rows_of rows)
  unfolding holds unscored
  unscored_rows-le [] = omega arith
  unscored_rows-le (r ∷ rows) = ground (arith, unscored_rows-le rows)

abbrev pub any_row : {A : Type 0} → List A → Bool
any_row [] = false
any_row (x ∷ xs) = true

any_row-map : {A B : Type 0} (f : A → B) (xs : List A) → any_row (map f xs) ≡ any_row xs
any_row-map f [] = refl
any_row-map f (x ∷ xs) = refl

module _ {N S : Type 0} (engine : Engine N S) (table : S → List (Prediction N))
    (law : IsSql engine table) (public_id : ℕ) where
  -- without a row to change, nothing is returned and nothing changes
  pub record_actual-none :
      (price : N) (s : S)
      → unscored_rows public_id (table s) ≡ []
      → (s' : S) × (record_actual engine public_id price s ≡ (ok none, s')) × (table s' ≡ table s)
  unfolding record_actual
  record_actual-none price s h =
      let (s', updated, (s'', committed, t)) = law.update_rows (unscored public_id) price s in
      (s'', rw (updated, h, committed), t ∙ map-settle_idle public_id price (table s) h)

  -- the one row without a price is settled, and its predicted price returned
  pub record_actual-some :
      (price : N) (s : S) (row : Prediction N)
      → unscored_rows public_id (table s) ≡ row ∷ []
      → (s' : S) × (record_actual engine public_id price s ≡ (ok (some row.predicted_price), s'))
        × (table s' ≡ map (settle public_id price) (table s))
  unfolding record_actual
  record_actual-some price s row h =
      let (s', updated, (s'', committed, t)) = law.update_rows (unscored public_id) price s in
      (s'', rw (updated, h, committed), t)

  pub exists_lem :
      (s : S)
      → (s' : S) × (exists engine public_id s ≡ (ok (any_row (rows_of public_id (table s))), s'))
        × (table s' ≡ table s)
  unfolding exists
  exists_lem s =
      let (s', found, t) = law.select_ids_rows (public_id_is public_id ∷ []) s in
      (s', rw found (ap (λ b. (ok b, s')) (any_row-map _ (rows_of public_id (table s)))), t)
