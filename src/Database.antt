-- ===== src/Database.antt =====
-- What app/db uses of SQLAlchemy and PostgreSQL to write: the calls on a session, as a parameter.
-- A call returns, breaks a constraint (`IntegrityError`), or fails in any other way; `S` is the
-- state of the database with the open transaction.
use fast_api_project.Prelude.{◌≡◌, refl, ◌⊎◌, inl, inr, Bool, true, false, List, ◌++◌, map, all}

pub data Attempt (S A : Type 0) : Type 0 where
  done : A → S → Attempt S A
  integrity : S → Attempt S A
  failed : S → Attempt S A

-- The rest of a block runs where a call returns; an exception passes on.
abbrev pub then_do : {S A B : Type 0} → Attempt S A → (A → S → Attempt S B) → Attempt S B
then_do (done a s) k = k a s
then_do (integrity s) k = integrity s
then_do (failed s) k = failed s

pub record Session (Row S : Type 0) : Type 0 where
  pub execute_insert : List Row → S → Attempt S (Unit {0})
  pub commit : S → Attempt S (Unit {0})
  pub rollback : S → Attempt S (Unit {0})

-- The documented behaviour of a reachable database whose constraints refuse exactly the rows that
-- are not `accepted`: a multi-row INSERT is all or nothing, `table` reads the committed rows, and
-- `stored` is what the table holds of a row.
pub record IsTransactional {Row V S : Type 0} (db : Session Row S) (table : S → List V)
    (stored : Row → V) (accepted : Row → Bool) : Type 0 where
  pub insert_accepted :
      (rows : List Row) (s : S)
      → all accepted rows ≡ true
      → (s' : S) × (db.execute_insert rows s ≡ done tt s')
        × ((s'' : S) × (db.commit s' ≡ done tt s'') × (table s'' ≡ table s ++ map stored rows))
  pub insert_refused :
      (rows : List Row) (s : S)
      → all accepted rows ≡ false
      → (s' : S) × (db.execute_insert rows s ≡ integrity s') × (table s' ≡ table s)
  pub rollback_done : (s : S) → (s' : S) × (db.rollback s ≡ done tt s') × (table s' ≡ table s)

-- How a call can end, with its equation kept.
pub Attempt-cases :
    {S A : Type 0} (m : Attempt S A)
    → ((a : A) × (s : S) × (m ≡ done a s))
      ⊎ (((s : S) × (m ≡ integrity s)) ⊎ ((s : S) × (m ≡ failed s)))
Attempt-cases (done a s) = inl (a, s, refl)
Attempt-cases (integrity s) = inr (inl (s, refl))
Attempt-cases (failed s) = inr (inr (s, refl))
