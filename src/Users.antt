-- ===== src/Users.antt =====
-- `User` of app/db/models.py, `UserRepository` of app/db/repositories.py, and `get_current_user` of
-- app/core/dependencies.py. The session and the table behind it are a parameter.
use fast_api_project.Prelude.{
  ℕ, ◌≡◌, String, Bool, Option, none, some, List, [], ◌∷◌, ◌++◌, filter, str_eq,
}
use fast_api_project.Exceptions.{Result, ok, raise_with, ErrorClass}
use fast_api_project.Database.{Attempt, done, integrity}
use fast_api_project.Exec.{M, resume, ◌>>=◌, lift, query}
use fast_api_project.Tokens.{Jwt, TokenSettings, claims, user_id_from}
use fast_api_project.Repository.{scalar_one_or_none}

pub record User : Type 0 where
  pub id : ℕ
  pub username : String
  pub hashed_password : String
  pub created_at : ℕ

-- What the repository uses of a session. `commit` of an added user gives its primary key, and
-- `refresh` reads the row back.
pub record UserSession (S : Type 0) : Type 0 where
  pub select_by_username : String → S → Attempt S (List User)
  pub get : ℕ → S → Attempt S (Option User)
  pub add : (username hashed_password : String) → S → S
  pub commit : S → Attempt S ℕ
  pub refresh : ℕ → S → Attempt S User

abbrev pub is_called : String → User → Bool
is_called username user = str_eq user.username username

-- The documented behaviour of a reachable database with a unique constraint on `username`.
-- `table` reads the rows of `users`.
pub record IsUserTable {S : Type 0} (session : UserSession S) (table : S → List User) : Type 0 where
  pub select_rows :
      (username : String) (s : S)
      → (s' : S) × (session.select_by_username username s
          ≡ done (filter (is_called username) (table s)) s')
        × (table s' ≡ table s)
  pub insert_new :
      (username hashed_password : String) (s : S)
      → filter (is_called username) (table s) ≡ []
      → (id : ℕ) × (created_at : ℕ) × (s' : S) × (session.commit
            (session.add username hashed_password s)
          ≡ done id s')
        × ((s'' : S) × (let user : User = record {
          id = id;
          username = username;
          hashed_password = hashed_password;
          created_at = created_at;
        } in
              (session.refresh id s' ≡ done user s'') × (table s'' ≡ table s ++ user ∷ [])))
  pub insert_taken :
      (username hashed_password : String) (s : S) (user : User)
      → filter (is_called username) (table s) ≡ user ∷ []
      → (s' : S) × (session.commit (session.add username hashed_password s) ≡ integrity s')
        × (table s' ≡ table s)

module _ {S : Type 0} (session : UserSession S) where
  unfoldable pub get_by_username : String → M S (Option User)
  unfolding scalar_one_or_none
  get_by_username username = do
    result ← query (session.select_by_username username)
    lift (scalar_one_or_none result)

  unfoldable pub get_by_id : ℕ → M S (Option User)
  get_by_id user_id = query (session.get user_id)

  unfoldable pub create : (username hashed_password : String) → M S User
  create username hashed_password s =
      resume (query session.commit (session.add username hashed_password s))
        λ id. query (session.refresh id)

  unfoldable pub user_or_refuse : Option User → Result User
  user_or_refuse none = raise_with ErrorClass.invalid_token "User no longer exists"
  user_or_refuse (some user) = ok user

  unfoldable pub get_current_user : Jwt → TokenSettings → Option String → ℕ → M S User
  unfolding claims user_id_from get_by_id user_or_refuse
  get_current_user jwt settings credentials now = do
    payload ← lift (claims jwt settings credentials now)
    user_id ← lift (user_id_from payload.uid)
    found ← get_by_id user_id
    lift (user_or_refuse found)
