-- ===== src/Migrations/Examples.antt =====
-- The last revision, and all of them, on a schema kept in memory.
use fast_api_project.Prelude.{Option, none, some, if◌then◌else◌}
use fast_api_project.Migrations.{
  Definition, Object, index, Statement, create, drop, same_object, Ddl,
}
use fast_api_project.Migrations.Revisions.{by_user, by_company_year}

abbrev Schema : Type 0
Schema = Object → Option Definition

abbrev with_object : Object → Option Definition → Schema → Schema
with_object o d s p = if same_object o p then d else s p

abbrev creating : Object → Definition → Schema → Option Definition → Option Schema
creating o d s none = some (with_object o (some d) s)
creating o d s (some old) = none

abbrev dropping : Object → Schema → Option Definition → Option Schema
dropping o s none = none
dropping o s (some old) = some (with_object o none s)

abbrev execute : Statement → Schema → Option Schema
execute (create o d) s = creating o d s (s o)
execute (drop o) s = dropping o s (s o)

abbrev memory : Ddl Schema
memory = record { execute = execute; look = λ s o. s o }

abbrev fourth : Schema
fourth = with_object (index "ix_predictions_user_id") (some by_user) (
    with_object (index "ix_predictions_company_year_created_at") (some by_company_year) (λ o. none))
