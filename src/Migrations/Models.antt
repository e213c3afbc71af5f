-- ===== src/Migrations/Models.antt =====
-- The tables and indexes that app/db/models.py declares, as objects of a schema.
use fast_api_project.Prelude.{
  String, Bool, true, false, not, ◌||◌, Option, none, some, List, [], ◌∷◌, ◌++◌, map, filter,
  str_eq, if◌then◌else◌,
}
use fast_api_project.Migrations.{
  integer, big_integer, float, boolean, uuid, string, numeric, Column, Definition, table_of,
  index_on, column_of, Object, table, index, column, same_object,
}
use fast_api_project.Migrations.Revisions.{col, created_at}

-- A class of the models: its columns, primary key and foreign keys, and the indexes on its table, those of
-- `index=True` included.
pub record Model : Type 0 where
  pub name : String
  pub columns : List Column
  pub primary_key : List String
  pub foreign_keys : List (String × (String × String))
  pub indexes : List (String × Definition)

-- `User`
abbrev pub user_model : Model
user_model = record {
  name = "users";
  columns =
      col "id" integer
      ∷ col "username" (string 50)
      ∷ col "hashed_password" (string 255)
      ∷ created_at
      ∷ [];
  primary_key = "id" ∷ [];
  foreign_keys = [];
  indexes = ("ix_users_username", index_on "users" ("username" ∷ []) true none) ∷ [];
}

-- `Prediction`
abbrev pub prediction_model : Model
prediction_model = record {
  name = "predictions";
  columns =
      col "id" big_integer
      ∷ record {
        name = "public_id";
        type = uuid;
        nullable = false;
        server_default = some "gen_random_uuid()";
      }
      ∷ record { name = "user_id"; type = integer; nullable = true; server_default = none }
      ∷ col "company" (string 50)
      ∷ col "year" integer
      ∷ col "owner" (string 20)
      ∷ col "fuel" (string 10)
      ∷ col "seller_type" (string 20)
      ∷ col "transmission" (string 10)
      ∷ col "km_driven" float
      ∷ col "mileage_mpg" float
      ∷ col "engine_cc" float
      ∷ col "max_power_bhp" float
      ∷ col "torque_nm" float
      ∷ col "seats" float
      ∷ col "predicted_price" (numeric 12 2)
      ∷ record {
        name = "actual_price";
        type = numeric 12 2;
        nullable = true;
        server_default = none;
      }
      ∷ col "cache_hit" boolean
      ∷ created_at
      ∷ [];
  primary_key = "id" ∷ [];
  foreign_keys = ("user_id", ("users.id", "SET NULL")) ∷ [];
  indexes =
      ("ix_predictions_public_id", index_on "predictions" ("public_id" ∷ []) true none)
      ∷ (
        "ix_predictions_user_id_created_at",
        index_on "predictions" ("user_id" ∷ "created_at DESC" ∷ []) false none,
      )
      ∷ (
        "ix_predictions_actual_price_created_at",
        index_on "predictions" ("created_at" ∷ []) false (some "actual_price IS NOT NULL"),
      )
      ∷ [];
}

-- The columns that were added to a table once it was there.
abbrev is_later : Column → Bool
is_later c = str_eq c.name "public_id" || str_eq c.name "actual_price"

-- what a schema has under a name where it has some objects and nothing else
abbrev pub found_in : List (Object × Definition) → Object → Option Definition
found_in [] o = none
found_in ((p, d) ∷ rest) o = if same_object p o then some d else found_in rest o

-- the objects that a class declares
abbrev pub declared : Model → List (Object × Definition)
declared m =
    (table m.name, table_of (filter (λ c. not (is_later c)) m.columns) m.primary_key m.foreign_keys)
    ∷ (map (λ c. (column m.name c.name, column_of c)) (filter is_later m.columns)
        ++ map (λ i. (index i.0, i.1)) m.indexes)
