-- ===== src/Auth/Examples.antt =====
-- Registration and login of app/services/auth_service.py on a table of users in memory.
use fast_api_project.Prelude.{
  ℕ, ◌≤◌, ◌≡◌, refl, ap, String, false, Option, none, some, List, [], ◌∷◌, ◌++◌, filter, length,
  get_elem?, str_eq, eq_refl, arith,
}
use fast_api_project.Exceptions.{ok, raise_app, ErrorClass}
use fast_api_project.Database.{Attempt, done, integrity, failed}
use fast_api_project.Tokens.{Passwords, get_current_principal}
use fast_api_project.Tokens.Spelled.{jwt, settings, jwt-Verifies}
use fast_api_project.Users.{User, UserSession, IsUserTable, is_called}
use fast_api_project.Auth.{register, authenticate}
use fast_api_project.Auth.Accounts.{authenticate-refused, register-authenticate}

-- the rows, and the name and the hash of an added user
abbrev Memory : Type 0
Memory = List User × Option (String × String)

abbrev row : List User → String × String → User
row users added = record {
  id = length users;
  username = added.0;
  hashed_password = added.1;
  created_at = 0;
}

abbrev insert_row : List User → String × String → List User → Attempt Memory ℕ
insert_row users added [] = done (length users) (users ++ row users added ∷ [], none)
insert_row users added (u ∷ us) = integrity (users, none)

abbrev commit_added : Memory → Attempt Memory ℕ
commit_added (users, none) = done 0 (users, none)
commit_added (users, some added) = insert_row users added (filter (is_called added.0) users)

abbrev read_back : Memory → Option User → Attempt Memory User
read_back s none = failed s
read_back s (some user) = done user s

abbrev memory : UserSession Memory
memory = record {
  select_by_username = λ username s. done (filter (is_called username) s.0) s;
  get = λ id s. done (get_elem? s.0 id) s;
  add = λ username hashed_password s. (s.0, some (username, hashed_password));
  commit = commit_added;
  refresh = λ id s. read_back s (get_elem? s.0 id);
}

last_row :
    (users : List User) (user : User) → get_elem? (users ++ user ∷ []) (length users) ≡ some user
last_row [] user = refl
last_row (u ∷ users) user = last_row users user

memory-IsUserTable : IsUserTable memory (λ s. s.0)
memory-IsUserTable = record {
  select_rows = λ username s. (s, refl, refl);
  insert_new = λ username hashed_password s free.
      let user = row s.0 (username, hashed_password) in
      (
        length s.0,
        0,
        (s.0 ++ user ∷ [], none),
        rw free,
        (
          (s.0 ++ user ∷ [], none),
          (ap (read_back (s.0 ++ user ∷ [], none)) (last_row s.0 user), refl),
        ),
      );
  insert_taken = λ username hashed_password s user taken. ((s.0, none), rw taken, refl);
}

-- a hash that is the password
abbrev passwords : Passwords
passwords = record {
  hash = λ password salt. password;
  verify = λ password hashed. str_eq password hashed;
}

abbrev asha : User
asha = record { id = 0; username = "asha"; hashed_password = "monsoon-rain"; created_at = 0 }

abbrev nobody : Memory
nobody = ([], none)

abbrev one : Memory
one = (asha ∷ [], none)

wrong :
    (user : User)
    → filter (is_called "asha") one.0 ≡ user ∷ []
    → str_eq "guess" user.hashed_password ≡ false
wrong user e = rw (← ap (λ (us : List User). hash_of us) e) refl
  where
    hash_of : List User → String
    hash_of [] = ""
    hash_of (u ∷ us) = u.hashed_password

authenticate-refused_example :
    (s : Memory) × (authenticate memory passwords jwt settings "asha" "guess" 1000 one
      ≡ (raise_app ErrorClass.invalid_credentials, s))
    × (s.0 ≡ one.0)
authenticate-refused_example =
    authenticate-refused memory (λ s. s.0) memory-IsUserTable passwords jwt settings "asha" "guess"
      1000 one (omega arith) wrong

register-authenticate_example :
    (user : User) × (s : Memory) × (register memory passwords "asha" "monsoon-rain" 1 nobody
      ≡ (ok user, s))
    × ((token : String) × (t : Memory) × (authenticate memory passwords jwt settings "asha"
            "monsoon-rain" 1000 s
          ≡ (ok (token, 1800), t))
        × ((later : ℕ)
            → later ≤ 2800
            → get_current_principal jwt settings (some token) later
              ≡ ok (record { id = user.id; username = "asha" })))
register-authenticate_example =
    register-authenticate memory (λ s. s.0) memory-IsUserTable passwords jwt settings "asha"
      "monsoon-rain" 1 1000 nobody (λ p n. eq_refl p) jwt-Verifies refl
