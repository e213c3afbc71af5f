-- ===== src/Writer/Rows.antt =====
-- Which rows of a batch reach the table, for a reachable database whose constraints refuse some
-- rows (app/services/prediction_writer.py over app/db/repositories.py).
use fast_api_project.Prelude.{ℕ, ◌+◌, ◌≡◌, Bool, false, List, ◌++◌, map, length, filter}
use fast_api_project.Database.{Session, IsTransactional}
use fast_api_project.Writer.{Writer, Retry}

module _ {Row V S : Type 0} (db : Session Row S) (table : S → List V) (held : Row → V)
    (accepted : Row → Bool) (law : IsTransactional db table held accepted) where
  -- the loop writes the accepted rows, in their order, and counts both kinds
  pub record Lands (rows : List Row) (landed : ℕ) (s : S) (r : Retry S) : Type 0 where
    pub finished : r.aborted ≡ false
    pub counted : r.landed ≡ landed + length (filter accepted rows)
    pub stored : table r.after ≡ table s ++ map held (filter accepted rows)
