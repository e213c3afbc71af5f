-- ===== src/Routes/Actual/Once.antt =====
-- A sale price is recorded at most once (app/api/routes_predict.py over app/db/repositories.py).
use fast_api_project.Prelude.{
  ℕ, ◌≤◌, ◌≡◌, refl, ◌∙◌, ap, List, [], ◌∷◌, map, length, if◌then◌else◌, arith,
}
use fast_api_project.Exceptions.{ok, raise_app, ErrorClass}
use fast_api_project.Floats.{Floats}
use fast_api_project.Repository.{Prediction, Engine, IsSql}
use fast_api_project.Repository.Actuals.{
  rows_of, unscored_rows, settle, unscored_rows-settle, length-rows_of-settle, unscored_rows-le,
  any_row, record_actual-none, record_actual-some, exists_lem,
}
use fast_api_project.Routes.Actual.{
  ScoredPrediction, scored_of, score_or_refuse, record_actual_price,
}

-- the error of a call that finds no row to settle
abbrev pub refusal : {N : Type 0} → List (Prediction N) → ErrorClass
refusal [] = ErrorClass.prediction_not_found
refusal (r ∷ rows) = ErrorClass.actual_already_recorded

module _ {N S : Type 0} (fl : Floats N) (engine : Engine N S) (table : S → List (Prediction N))
    (law : IsSql engine table) (public_id : ℕ) where
  refusal-present :
      (rows : List (Prediction N))
      → 1 ≤ length rows
      → refusal rows ≡ ErrorClass.actual_already_recorded
  refusal-present [] h = elim h [ ]
  refusal-present (r ∷ rows) h = refl

  if_refusal :
      (rows : List (Prediction N))
      → (if any_row rows
          then raise_app {A = ScoredPrediction N} ErrorClass.actual_already_recorded
          else raise_app ErrorClass.prediction_not_found)
        ≡ raise_app (refusal rows)
  if_refusal [] = refl
  if_refusal (r ∷ rows) = refl

  -- On a database that answers: without a row of that id the handler answers `PredictionNotFoundError`, and with one whose
  -- price is recorded `ActualAlreadyRecordedError`; in both cases no row changes, so a recorded
  -- price is never overwritten.
  pub record_actual_price-refused :
      (price : N) (s : S)
      → unscored_rows public_id (table s) ≡ []
      → (s' : S) × (record_actual_price fl engine public_id price s
          ≡ (raise_app (refusal (rows_of public_id (table s))), s'))
        × (table s' ≡ table s)
  unfolding record_actual_price
  record_actual_price-refused price s h =
      let (s', none_changed, t) = record_actual-none engine table law public_id price s h in
      let (s'', found, t') = exists_lem engine table law public_id s' in
      (
        s'',
        rw (none_changed, score_or_refuse, found, t)
            (ap (λ r. (r, s'')) (if_refusal (rows_of public_id (table s)))),
        t' ∙ t,
      )

  pub settled :
      (price : N) (s : S) (row : Prediction N)
      → unscored_rows public_id (table s) ≡ row ∷ []
      → (s' : S) × (record_actual_price fl engine public_id price s
          ≡ (ok (scored_of fl public_id row.predicted_price price), s'))
        × (table s' ≡ map (settle public_id price) (table s))
  unfolding record_actual_price score_or_refuse
  settled price s row h =
      let (s', changed, t) = record_actual-some engine table law public_id price s row h in
      (s', rw changed, t)

  -- On a database that answers, where one row has the id and no price: of two reports, exactly the first is recorded: it is scored against the
  -- predicted price of its row and sets the price of that row alone, and the second, whatever its
  -- price, is refused as already recorded and changes nothing.
  pub record_actual_price-once :
      (first second : N) (s : S) (row : Prediction N)
      → unscored_rows public_id (table s) ≡ row ∷ []
      → (s' : S) × (record_actual_price fl engine public_id first s
          ≡ (ok (scored_of fl public_id row.predicted_price first), s'))
        × (table s' ≡ map (settle public_id first) (table s))
        × ((s'' : S) × (record_actual_price fl engine public_id second s'
              ≡ (raise_app ErrorClass.actual_already_recorded, s''))
            × (table s'' ≡ table s'))
  record_actual_price-once first second s row h =
      let (s', scored, t) = settled first s row h in
      let spent : unscored_rows public_id (table s') ≡ [] =
        rw t (unscored_rows-settle public_id first (table s)) in
      let (s'', answered, t') = record_actual_price-refused second s' spent in
      let same_rows : length (rows_of public_id (table s')) ≡ length (rows_of public_id (table s)) =
        rw t (length-rows_of-settle public_id first (table s)) in
      let one : length (unscored_rows public_id (table s)) ≡ 1 =
        ap (λ (l : List (Prediction N)). length l) h in
      let present : 1 ≤ length (rows_of public_id (table s')) =
        omega (arith, same_rows, one, unscored_rows-le public_id (table s)) in
      (
        s',
        scored,
        t,
        (s'', answered ∙ ap (λ c. (raise_app c, s'')) (refusal-present _ present), t'),
      )
