-- ===== src/Migrations/Head.antt =====
-- The schema that alembic/versions builds from nothing is the one that app/db/models.py declares.
use fast_api_project.Prelude.{◌≡◌, Option, none, List, [], ◌∷◌, ◌++◌, if◌then◌else◌}
use fast_api_project.Migrations.{Definition, Object, Statement, same_object}
use fast_api_project.Migrations.Revisions.{
  initial_schema, prediction_history_index, prediction_actual_price, prediction_public_id,
  history_by_user, upgrade,
}
use fast_api_project.Migrations.Undo.{Change, object_of, before, after, changes}
use fast_api_project.Migrations.Models.{user_model, prediction_model, declared, found_in}

abbrev pub all_upgrades : List Statement
all_upgrades =
    upgrade initial_schema
    ++ (upgrade prediction_history_index
        ++ (upgrade prediction_actual_price
            ++ (upgrade prediction_public_id ++ upgrade history_by_user)))

-- a schema after a change
abbrev changed : Change → (Object → Option Definition) → Object → Option Definition
changed c look p = if same_object (object_of c) p then after c else look p

-- what each of some changes expects of the schema that it meets
abbrev Fits : (Object → Option Definition) → List Change → Type 0
Fits look [] = Unit
Fits look (c ∷ cs) = (look (object_of c) ≡ before c) × Fits (changed c look) cs

abbrev changed_all : List Change → (Object → Option Definition) → Object → Option Definition
changed_all [] look = look
changed_all (c ∷ cs) look = changed_all cs (changed c look)

all_changes : List Change
unfolding changes
all_changes =
    changes initial_schema
    ++ (changes prediction_history_index
        ++ (changes prediction_actual_price
            ++ (changes prediction_public_id ++ changes history_by_user)))

nothing : Object → Option Definition
nothing o = none

abbrev pub models : List (Object × Definition)
models = declared user_model ++ declared prediction_model

abbrev Agrees : Object → Type 0
Agrees o = changed_all all_changes nothing o ≡ found_in models o
