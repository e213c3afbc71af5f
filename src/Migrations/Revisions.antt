-- ===== src/Migrations/Revisions.antt =====
-- The statements of alembic/versions, revision by revision.
use fast_api_project.Prelude.{String, true, false, none, some, List, [], ◌∷◌}
use fast_api_project.Migrations.{
  ColumnType, integer, big_integer, float, boolean, timestamp, uuid, string, numeric, Column,
  Definition, table_of, index_on, column_of, table, index, column, Statement, create, drop,
}

pub data Revision : Type 0 where
  initial_schema prediction_history_index prediction_actual_price prediction_public_id
        history_by_user :
      Revision

abbrev pub col : String → ColumnType → Column
col name type = record { name = name; type = type; nullable = false; server_default = none }

abbrev pub created_at : Column
created_at = record {
  name = "created_at";
  type = timestamp;
  nullable = false;
  server_default = some "now()";
}

abbrev pub users : Definition
users =
    table_of
      (col "id" integer
        ∷ col "username" (string 50)
        ∷ col "hashed_password" (string 255)
        ∷ created_at
        ∷ [])
      ("id" ∷ []) []

abbrev pub predictions : Definition
predictions =
    table_of
      (col "id" big_integer
        ∷ record { name = "user_id"; type = integer; nullable = true; server_default = none }
        ∷ col "company" (string 50)
        ∷ col "year" integer
        ∷ col "owner" (string 20)
        ∷ col "fuel" (string 10)
        ∷ col "seller_type" (string 20)
        ∷ col "transmission" (string 10)
        ∷ col "km_driven" float
        ∷ col "mileage_mpg" float
        ∷ col "engine_cc" float
        ∷ col "max_power_bhp" float
        ∷ col "torque_nm" float
        ∷ col "seats" float
        ∷ col "predicted_price" (numeric 12 2)
        ∷ col "cache_hit" boolean
        ∷ created_at
        ∷ [])
      ("id" ∷ []) (("user_id", ("users.id", "SET NULL")) ∷ [])

abbrev pub by_username : Definition
by_username = index_on "users" ("username" ∷ []) true none

abbrev pub by_user : Definition
by_user = index_on "predictions" ("user_id" ∷ []) false none

abbrev pub by_company_year : Definition
by_company_year = index_on "predictions" ("company" ∷ "year" ∷ "created_at DESC" ∷ []) false none

abbrev pub actual_price : Definition
actual_price =
    column_of (record {
      name = "actual_price";
      type = numeric 12 2;
      nullable = true;
      server_default = none;
    })

abbrev pub by_actual_price : Definition
by_actual_price = index_on "predictions" ("created_at" ∷ []) false (some "actual_price IS NOT NULL")

abbrev pub public_id : Definition
public_id = column_of (record {
  name = "public_id";
  type = uuid;
  nullable = false;
  server_default = some "gen_random_uuid()";
})

abbrev pub by_public_id : Definition
by_public_id = index_on "predictions" ("public_id" ∷ []) true none

abbrev pub by_user_created_at : Definition
by_user_created_at = index_on "predictions" ("user_id" ∷ "created_at DESC" ∷ []) false none

abbrev pub upgrade_0001 : List Statement
upgrade_0001 =
    create (table "users") users
    ∷ create (index "ix_users_username") by_username
    ∷ create (table "predictions") predictions
    ∷ create (index "ix_predictions_user_id") by_user
    ∷ []

abbrev pub upgrade_0002 : List Statement
upgrade_0002 = create (index "ix_predictions_company_year_created_at") by_company_year ∷ []

abbrev pub upgrade_0003 : List Statement
upgrade_0003 =
    create (column "predictions" "actual_price") actual_price
    ∷ create (index "ix_predictions_actual_price_created_at") by_actual_price
    ∷ []

abbrev pub upgrade_0004 : List Statement
upgrade_0004 =
    create (column "predictions" "public_id") public_id
    ∷ create (index "ix_predictions_public_id") by_public_id
    ∷ []

abbrev pub upgrade_0005 : List Statement
upgrade_0005 =
    create (index "ix_predictions_user_id_created_at") by_user_created_at
    ∷ drop (index "ix_predictions_user_id")
    ∷ drop (index "ix_predictions_company_year_created_at")
    ∷ []

abbrev pub downgrade_0001 : List Statement
downgrade_0001 =
    drop (index "ix_predictions_user_id")
    ∷ drop (table "predictions")
    ∷ drop (index "ix_users_username")
    ∷ drop (table "users")
    ∷ []

abbrev pub downgrade_0002 : List Statement
downgrade_0002 = drop (index "ix_predictions_company_year_created_at") ∷ []

abbrev pub downgrade_0003 : List Statement
downgrade_0003 =
    drop (index "ix_predictions_actual_price_created_at")
    ∷ drop (column "predictions" "actual_price")
    ∷ []

abbrev pub downgrade_0004 : List Statement
downgrade_0004 =
    drop (index "ix_predictions_public_id") ∷ drop (column "predictions" "public_id") ∷ []

abbrev pub downgrade_0005 : List Statement
downgrade_0005 =
    create (index "ix_predictions_company_year_created_at") by_company_year
    ∷ create (index "ix_predictions_user_id") by_user
    ∷ drop (index "ix_predictions_user_id_created_at")
    ∷ []

unfoldable pub upgrade : Revision → List Statement
upgrade initial_schema = upgrade_0001
upgrade prediction_history_index = upgrade_0002
upgrade prediction_actual_price = upgrade_0003
upgrade prediction_public_id = upgrade_0004
upgrade history_by_user = upgrade_0005

unfoldable pub downgrade : Revision → List Statement
downgrade initial_schema = downgrade_0001
downgrade prediction_history_index = downgrade_0002
downgrade prediction_actual_price = downgrade_0003
downgrade prediction_public_id = downgrade_0004
downgrade history_by_user = downgrade_0005
