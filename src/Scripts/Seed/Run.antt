-- ===== src/Scripts/Seed/Run.antt =====
-- `main` of scripts/seed_predictions.py, from its connection on. The database is a parameter with its state, and
-- arguments are not negative. Timing is left out, but for its divisions by zero: no time for no rows copied, and
-- no rate of no rows inserted. So are printing, the size of the table on disk, and the closing of the connection.
use fast_api_project.Prelude.{
  ℕ, String, Bool, Option, none, some, List, [], ◌∷◌, length, ◌==◌, ◌&&◌, ◌||◌, if◌then◌else◌,
}
use fast_api_project.Floats.{Floats}
use fast_api_project.Drift.{◌>>=◌}
use fast_api_project.Scripts.{Rng}
use fast_api_project.Scripts.Seed.{Cell, copy_load, insert_load}
use fast_api_project.Scripts.Seed.Accounts.{Users, ensure_users}

-- what is sent over the connection, `none` where it raises
pub record Database (F S : Type 0) : Type 0 where
  pub users : Users S
  pub truncate : S → Option S
  pub execute : List (Cell F) → S → Option S
  pub copy_records : List (List (Cell F)) → S → Option S
  pub count : S → ℕ

-- the arguments of the command
pub record Args : Type 0 where
  pub rows : ℕ
  pub chunk : ℕ
  pub compare : Bool
  pub compare_rows : ℕ
  pub truncate : Bool
  pub users : ℕ

-- each thing is sent in its order, until one raises
unfoldable pub send_all : {A S : Type 0} → (A → S → Option S) → List A → S → Option S
send_all send [] s = some s
send_all send (x ∷ xs) s = send x s >>= λ s'. send_all send xs s'

module _ {F R S : Type 0} (fl : Floats F) (rng : Rng F R) (below_0_6 : R → Bool × R)
    (db : Database F S) (decimal : ℕ → String) where
  -- the call of `insert_load`
  unfoldable pub insert_rows : List ℕ → ℕ → S → R → Option (S × R)
  unfolding send_all
  insert_rows user_ids total s r =
      let made = insert_load fl rng below_0_6 user_ids total r in
      send_all db.execute made.0 s >>= λ s'. some (s', made.1)

  -- The call of `copy_load`, whose loop goes round at most once for each row. With a chunk of no rows it
  -- never ends, which is `none` too.
  unfoldable pub copy_rows : Args → List ℕ → S → R → Option S
  unfolding send_all
  copy_rows args user_ids s r =
      copy_load fl rng below_0_6 user_ids args.rows args.rows args.chunk 0 r >>= λ loaded.
      send_all db.copy_records loaded.0 s

  unfoldable pub divides_by_zero : Args → Bool
  divides_by_zero args = (args.rows == 0) || (args.compare && (args.compare_rows == 0))

  -- after `ensure_users`: nothing can be drawn from no users
  unfoldable pub load_rows : Args → List ℕ → S → R → Option (ℕ × S)
  unfolding insert_rows copy_rows divides_by_zero
  load_rows args user_ids s r =
      if length user_ids == 0
      then none
      else ((if args.compare then insert_rows user_ids args.compare_rows s r else some (s, r))
          >>= λ inserted. copy_rows args user_ids inserted.0 inserted.1 >>= λ s'.
              if divides_by_zero args then none else some (db.count s', s'))

  -- the total that is printed, and the database after it
  unfoldable pub main : Args → S → R → Option (ℕ × S)
  unfolding load_rows
  main args s r = (if args.truncate then db.truncate s else some s) >>= λ s₁.
      ensure_users db.users decimal args.users s₁ >>= λ found. load_rows args found.0 found.1 r
