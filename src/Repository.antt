-- ===== src/Repository.antt =====
-- app/db/models.py and the queries of `PredictionRepository` in app/db/repositories.py. A
-- repository builds statements; the engine that runs them is a parameter. `log_many` is in Writer.
pub mod Actuals
mod Examples
pub mod History
pub mod Memory
use mathlib.Core.List.{Perm}
use fast_api_project.Prelude.{
  ℕ, ◌≤◌, ◌≡◌, String, Bool, true, false, not, ◌&&◌, Option, none, some, List, [], ◌∷◌, ◌++◌, map,
  filter, take, drop, all, All, ◌==◌, str_eq, if◌then◌else◌,
}
use fast_api_project.Exceptions.{Result, ok, raise, unhandled}
use fast_api_project.Database.{Attempt, done}
use fast_api_project.Exec.{M, resume, ◌>>=◌, ◌>>◌, pure, lift, uncaught, query}

-- A row of `predictions`; `N` is the type of its numeric cells.
pub record Prediction (N : Type 0) : Type 0 where
  pub id : ℕ
  pub public_id : ℕ
  pub user_id : Option ℕ
  pub company : String
  pub year : ℕ
  pub owner : String
  pub fuel : String
  pub seller_type : String
  pub transmission : String
  pub km_driven : N
  pub mileage_mpg : N
  pub engine_cc : N
  pub max_power_bhp : N
  pub torque_nm : N
  pub seats : N
  pub predicted_price : N
  pub actual_price : Option N
  pub cache_hit : Bool
  pub created_at : ℕ

-- The conditions that the statements of the repository are built from.
pub data Condition : Type 0 where
  user_id_is public_id_is year_is : ℕ → Condition
  company_is : String → Condition
  actual_is_null actual_is_not_null : Condition

pub data OrderBy : Type 0 where
  created_at_desc id_desc : OrderBy

pub record Select : Type 0 where
  pub conditions : List Condition
  pub order_by : OrderBy
  pub limit : ℕ
  pub offset : ℕ

abbrev same_id : Option ℕ → ℕ → Bool
same_id none n = false
same_id (some m) n = m == n

abbrev is_null : {A : Type 0} → Option A → Bool
is_null none = true
is_null (some a) = false

-- SQL's reading of a condition on a row: a comparison with NULL does not hold.
unfoldable pub holds : {N : Type 0} → Prediction N → Condition → Bool
holds row (user_id_is n) = same_id row.user_id n
holds row (public_id_is n) = row.public_id == n
holds row (year_is n) = row.year == n
holds row (company_is s) = str_eq row.company s
holds row actual_is_null = is_null row.actual_price
holds row actual_is_not_null = not (is_null row.actual_price)

abbrev pub matches : {N : Type 0} → List Condition → Prediction N → Bool
matches conditions row = all (holds row) conditions

-- The statements that the engine runs; an UPDATE sets `actual_price` and returns the predicted
-- prices of the rows that it changed.
pub record Engine (N S : Type 0) : Type 0 where
  pub select : Select → S → Attempt S (List (Prediction N))
  pub select_ids : List Condition → S → Attempt S (List ℕ)
  pub update_actual : List Condition → N → S → Attempt S (List N)
  pub commit : S → Attempt S (Unit {0})

-- `scalar_one_or_none`
unfoldable pub scalar_one_or_none : {A : Type 0} → List A → Result (Option A)
scalar_one_or_none [] = ok none
scalar_one_or_none (x ∷ []) = ok (some x)
scalar_one_or_none (x ∷ y ∷ rest) = raise (unhandled "MultipleResultsFound")

-- `if company is not None: statement = statement.where(…)`
abbrev pub where_company : Option String → List Condition
where_company none = []
where_company (some s) = company_is s ∷ []

abbrev pub where_year : Option ℕ → List Condition
where_year none = []
where_year (some n) = year_is n ∷ []

unfoldable pub history_statement : ℕ → Option String → Option ℕ → ℕ → ℕ → Select
history_statement user_id company year limit offset = record {
  conditions = user_id_is user_id ∷ (where_company company ++ where_year year);
  order_by = created_at_desc;
  limit = limit;
  offset = offset;
}

-- the conditions of `record_actual`
unfoldable pub unscored : ℕ → List Condition
unscored public_id = public_id_is public_id ∷ actual_is_null ∷ []

module _ {N S : Type 0} (engine : Engine N S) where
  unfoldable pub history :
      ℕ → Option String → Option ℕ → (limit offset : ℕ) → M S (List (Prediction N))
  unfolding history_statement
  history user_id company year limit offset =
      query (engine.select (history_statement user_id company year limit offset))

  unfoldable pub record_actual : ℕ → N → M S (Option N)
  unfolding unscored scalar_one_or_none
  record_actual public_id actual_price = do
    returned ← query (engine.update_actual (unscored public_id) actual_price)
    predicted ← lift (scalar_one_or_none returned)
    query engine.commit
    pure predicted

  unfoldable pub exists : ℕ → M S Bool
  exists public_id = do
    found ← query (engine.select_ids (public_id_is public_id ∷ []))
    pure (elim found [ [] ↦ false | _ ∷ _ ↦ true ])

-- what an ORDER BY compares, greatest first
abbrev pub key_of : {N : Type 0} → OrderBy → Prediction N → ℕ
key_of created_at_desc row = row.created_at
key_of id_desc row = row.id

abbrev pub IsDescending : {N : Type 0} → (Prediction N → ℕ) → List (Prediction N) → Type 0
IsDescending key [] = Unit
IsDescending key (row ∷ rows) = All (λ r. key r ≤ key row) rows × IsDescending key rows

-- The documented behaviour of a reachable database: a SELECT arranges the rows that meet its conditions in its
-- order, those with one key in any, and returns the part that OFFSET and LIMIT cut out. `table`
-- reads the rows of `predictions`.
pub record IsSql {N S : Type 0} (engine : Engine N S) (table : S → List (Prediction N))
    : Type 0 where
  pub select_rows :
      (q : Select) (s : S)
      → (arranged : List (Prediction N)) × Perm arranged (filter (matches q.conditions) (table s))
        × IsDescending (key_of q.order_by) arranged
        × ((s' : S) × (engine.select q s ≡ done (take q.limit (drop q.offset arranged)) s')
            × (table s' ≡ table s))
  pub select_ids_rows :
      (conditions : List Condition) (s : S)
      → (s' : S) × (engine.select_ids conditions s
          ≡ done (map (λ row. row.id) (filter (matches conditions) (table s))) s')
        × (table s' ≡ table s)
  pub update_rows :
      (conditions : List Condition) (price : N) (s : S)
      → (s' : S) × (engine.update_actual conditions price s
          ≡ done (map (λ row. row.predicted_price) (filter (matches conditions) (table s))) s')
        × ((s'' : S) × (engine.commit s' ≡ done tt s'')
            × (table s''
                ≡ map
                    (λ row.
                      if matches conditions row
                      then record row { actual_price = some price }
                      else row)
                    (table s)))
