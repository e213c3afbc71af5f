-- ===== src/Migrations/Undo.antt =====
-- A downgrade of alembic/versions takes back what its upgrade did.
use fast_api_project.Prelude.{
  all, not, Bool, true, ◌&&◌, Option, none, some, List, [], ◌∷◌, ◌++◌, map, ◌≡◌, if◌then◌else◌,
}
use fast_api_project.Migrations.{
  Definition, Object, table, index, column, Statement, create, drop, same_object, Ddl, IsDdl,
}
use fast_api_project.Migrations.Revisions.{
  Revision, initial_schema, prediction_history_index, prediction_actual_price, prediction_public_id,
  history_by_user, users, predictions, by_username, by_user, by_company_year, actual_price,
  by_actual_price, public_id, by_public_id, by_user_created_at, upgrade, downgrade,
}

-- A change with what it creates or drops
pub data Change : Type 0 where
  created dropped : Object → Definition → Change

abbrev pub object_of : Change → Object
object_of (created o d) = o
object_of (dropped o d) = o

abbrev pub forward : Change → Statement
forward (created o d) = create o d
forward (dropped o d) = drop o

abbrev backward : Change → Statement
backward (created o d) = drop o
backward (dropped o d) = create o d

-- what a change finds, and what it leaves
abbrev pub before : Change → Option Definition
before (created o d) = none
before (dropped o d) = some d

abbrev pub after : Change → Option Definition
after (created o d) = some d
after (dropped o d) = none

abbrev backwards : List Change → List Statement
backwards [] = []
backwards (c ∷ cs) = backwards cs ++ backward c ∷ []

-- no two changes of one object
abbrev pub are_apart : List Change → Bool
are_apart [] = true
are_apart (c ∷ cs) = all (λ d. not (same_object (object_of c) (object_of d))) cs && are_apart cs

-- what each upgrade changes
unfoldable pub changes : Revision → List Change
changes initial_schema =
    created (table "users") users
    ∷ created (index "ix_users_username") by_username
    ∷ created (table "predictions") predictions
    ∷ created (index "ix_predictions_user_id") by_user
    ∷ []
changes prediction_history_index =
    created (index "ix_predictions_company_year_created_at") by_company_year ∷ []
changes prediction_actual_price =
    created (column "predictions" "actual_price") actual_price
    ∷ created (index "ix_predictions_actual_price_created_at") by_actual_price
    ∷ []
changes prediction_public_id =
    created (column "predictions" "public_id") public_id
    ∷ created (index "ix_predictions_public_id") by_public_id
    ∷ []
changes history_by_user =
    created (index "ix_predictions_user_id_created_at") by_user_created_at
    ∷ dropped (index "ix_predictions_user_id") by_user
    ∷ dropped (index "ix_predictions_company_year_created_at") by_company_year
    ∷ []

-- each `upgrade` makes these changes, each `downgrade` takes them back, and none is made twice
IsReversed : Revision → Type 0
IsReversed r =
    (upgrade r ≡ map forward (changes r))
    × (downgrade r ≡ backwards (changes r))
    × (are_apart (changes r) ≡ true)

module _ {S : Type 0} (db : Ddl S) (ddl : IsDdl db) where
  abbrev Turns : Statement → Object → Option Definition → S → Type 0
  Turns statement o d s =
      (s' : S) × (db.execute statement s ≡ some s')
      × ((p : Object) → db.look s' p ≡ (if same_object o p then d else db.look s p))

  pub forward-Turns :
      (c : Change) (s : S)
      → db.look s (object_of c) ≡ before c
      → Turns (forward c) (object_of c) (after c) s
  forward-Turns (created o d) s h = ddl.creates o d s h
  forward-Turns (dropped o d) s h = ddl.drops o d s h

  -- what the changes find
  abbrev pub Finds : S → Change → Type 0
  Finds s c = db.look s (object_of c) ≡ before c
