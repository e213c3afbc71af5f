-- ===== src/Migrations.antt =====
-- alembic/versions: each revision's `upgrade` and `downgrade` as the statements they run. A table that is
-- created is one object with its columns; a column that is added later is an object of its own. What the
-- database does with a statement is a parameter. Models is the schema of app/db/models.py.
pub mod Revisions
pub mod Undo
pub mod Models
pub mod Head
mod Examples
use fast_api_project.Prelude.{
  ℕ, String, Bool, true, false, ◌&&◌, Option, none, some, List, [], ◌∷◌, ◌≡◌, str_eq, if◌then◌else◌,
}

pub data ColumnType : Type 0 where
  integer big_integer float boolean timestamp uuid : ColumnType
  string : (length : ℕ) → ColumnType
  numeric : (precision scale : ℕ) → ColumnType

pub record Column : Type 0 where
  pub name : String
  pub type : ColumnType
  pub nullable : Bool
  pub server_default : Option String

-- A table has its columns, primary key and foreign keys, each with the column that it refers to and what
-- a delete there does. An index has its table, its columns, whether it is unique, and its condition.
pub data Definition : Type 0 where
  table_of :
      (columns : List Column)
      → (primary_key : List String) → (foreign_keys : List (String × (String × String)))
      → Definition
  index_on :
      (table : String)
      → (columns : List String) → (unique : Bool) → (condition : Option String) → Definition
  column_of : Column → Definition

-- What a statement names: a table, an index, or a column of a table.
pub data Object : Type 0 where
  table index : String → Object
  column : (table name : String) → Object

-- `op.create_table`, `op.create_index` and `op.add_column` create; `op.drop_table`, `op.drop_index` and
-- `op.drop_column` drop.
pub data Statement : Type 0 where
  create : Object → Definition → Statement
  drop : Object → Statement

unfoldable pub same_object : Object → Object → Bool
same_object (table a) (table b) = str_eq a b
same_object (index a) (index b) = str_eq a b
same_object (column t a) (column u b) = str_eq t u && str_eq a b
same_object (table a) (index b) = false
same_object (table a) (column u b) = false
same_object (index a) (table b) = false
same_object (index a) (column u b) = false
same_object (column t a) (table b) = false
same_object (column t a) (index b) = false

-- The database: what it does with a statement, `none` where it refuses it, and what it has under a name.
pub record Ddl (S : Type 0) : Type 0 where
  pub execute : Statement → S → Option S
  pub look : S → Object → Option Definition

-- Documented: a new object can be created and one that is there can be dropped, and either changes that
-- object alone.
pub record IsDdl {S : Type 0} (db : Ddl S) : Type 0 where
  pub creates :
      (o : Object) (d : Definition) (s : S)
      → db.look s o ≡ none
      → (s' : S) × (db.execute (create o d) s ≡ some s')
        × ((p : Object) → db.look s' p ≡ (if same_object o p then some d else db.look s p))
  pub drops :
      (o : Object) (d : Definition) (s : S)
      → db.look s o ≡ some d
      → (s' : S) × (db.execute (drop o) s ≡ some s')
        × ((p : Object) → db.look s' p ≡ (if same_object o p then none else db.look s p))

abbrev pub then_run : {S : Type 0} → Option S → (S → Option S) → Option S
then_run none next = none
then_run (some s) next = next s

-- the statements of a revision, in order
unfoldable pub run : {S : Type 0} → Ddl S → List Statement → S → Option S
run db [] s = some s
run db (statement ∷ statements) s = then_run (db.execute statement s) λ s'. run db statements s'
