-- ===== src/Scripts/Seed/Examples.antt =====
-- A seeding of a database in memory: how many users it has, and its rows.
use fast_api_project.Prelude.{
  ℕ, zero, suc, ◌<◌, min, String, true, some, List, [], ◌∷◌, ◌++◌, length,
}
use fast_api_project.Scripts.Seed.{Cell}
use fast_api_project.Scripts.Seed.Run.{Database, Args}

abbrev Tables : Type 0
Tables = ℕ × List (List (Cell ℕ))

ids_below : ℕ → List ℕ
ids_below zero = []
ids_below (suc n) = ids_below n ++ n ∷ []

abbrev IsUser : ℕ → Tables → Type 0
IsUser id s = id < s.0

abbrev db : Database ℕ Tables
db = record {
  users = record {
    first_ids = λ limit s. (ids_below (min limit s.0), s);
    insert = λ name s. some (s.0, (suc s.0, s.1));
  };
  truncate = λ s. some (s.0, []);
  execute = λ row s. some (s.0, s.1 ++ row ∷ []);
  copy_records = λ batch s. some (s.0, s.1 ++ batch);
  count = λ s. length s.1;
}

abbrev IsFree : String → Tables → Type 0
IsFree name s = Unit

-- two users, and no rows
abbrev before : Tables
before = (2, [])

abbrev args : Args
args = record { rows = 5; chunk = 2; compare = true; compare_rows = 1; truncate = true; users = 3 }
