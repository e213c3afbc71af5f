-- ===== src/Auth/Accounts.antt =====
-- Accounts over time: registration and login of app/services/auth_service.py on one table of users.
use fast_api_project.Prelude.{
  ℕ, ◌+◌, ◌*◌, ◌≤◌, ◌≡◌, refl, ◌∙◌, ap, String, true, false, Option, none, some, List, [], ◌∷◌,
  ◌++◌, filter, length, str_eq, eq_refl, Bool-cases, inl, inr, arith,
}
use fast_api_project.Exceptions.{ok, raise_app, ErrorClass}
use fast_api_project.Tokens.{
  Jwt, Passwords, TokenSettings, create_access_token, get_current_principal,
}
use fast_api_project.Tokens.Checks.{Verifies, get_current_principal-create}
use fast_api_project.Repository.{scalar_one_or_none}
use fast_api_project.Users.{User, UserSession, IsUserTable, is_called, get_by_username, create}
use fast_api_project.Auth.{create_unless_taken, register, token_for, authenticate}

abbrev pub head : {A : Type 0} → List A → Option A
head [] = none
head (x ∷ xs) = some x

scalar_head : {A : Type 0} (xs : List A) → length xs ≤ 1 → scalar_one_or_none xs ≡ ok (head xs)
unfolding scalar_one_or_none
scalar_head [] h = refl
scalar_head (x ∷ []) h = refl
scalar_head (x ∷ y ∷ xs) h = absurd (omega arith)

-- a user who joins is the only one of that name, if it was free
joined :
    (username : String) (user : User) (users : List User)
    → user.username ≡ username
    → filter (is_called username) users ≡ []
    → filter (is_called username) (users ++ user ∷ []) ≡ user ∷ []
joined username user [] e h = rw (e, eq_refl username)
joined username user (u ∷ users) e h = elim (Bool-cases (str_eq u.username username)) [
  | inl same ↦ absurd (ground (arith, same))
  | inr other ↦ rw other (joined username user users e (ground (arith, other)))
]

module _ {S : Type 0} (session : UserSession S) (table : S → List User)
    (law : IsUserTable session table) (passwords : Passwords) where
  abbrev pub named : String → S → List User
  named username s = filter (is_called username) (table s)

  found_lem :
      (username : String) (s : S)
      → length (named username s) ≤ 1
      → (s' : S) × (get_by_username session username s ≡ (ok (head (named username s)), s'))
        × (table s' ≡ table s)
  unfolding get_by_username
  found_lem username s few =
      let (s', selected, t) = law.select_rows username s in
      (s', rw (selected, scalar_head (named username s) few), t)

  -- Where the name is taken, registration is refused as a conflict, and no row changes.
  pub register-taken :
      (username password : String) (salt : ℕ) (s : S) (user : User)
      → named username s ≡ user ∷ []
      → (s' : S) × (register session passwords username password salt s
          ≡ (raise_app ErrorClass.user_already_exists, s'))
        × (table s' ≡ table s)
  unfolding register create_unless_taken
  register-taken username password salt s user h =
      let (s', found, t) = found_lem username s (rw h (omega arith)) in (s', rw (found, h), t)

  create_lem :
      (username password : String) (salt : ℕ) (s : S)
      → named username s ≡ []
      → (user : User) × (s' : S) × (create_unless_taken session passwords none username password
            salt s
          ≡ (ok user, s'))
        × (user.username ≡ username)
        × (user.hashed_password ≡ passwords.hash password salt)
        × (table s' ≡ table s ++ user ∷ [])
  unfolding create_unless_taken create
  create_lem username password salt s h =
      let (id, at, s', committed, (s'', (refreshed, t))) =
        law.insert_new username (passwords.hash password salt) s h in
      (
        record {
          id = id;
          username = username;
          hashed_password = passwords.hash password salt;
          created_at = at;
        },
        s'',
        rw (committed, refreshed),
        refl,
        refl,
        t,
      )

  registered :
      (username password : String) (salt : ℕ) (s : S)
      → named username s ≡ []
      → (user : User) × (s' : S) × (register session passwords username password salt s
          ≡ (ok user, s'))
        × (user.username ≡ username)
        × (user.hashed_password ≡ passwords.hash password salt)
        × (named username s' ≡ user ∷ [])
  unfolding register
  registered username password salt s h =
      let (s1, found, t1) = found_lem username s (rw h (omega arith)) in
      let h1 : named username s1 ≡ [] = rw t1 h in
      let (user, s2, created, n, p, t2) = create_lem username password salt s1 h1 in
      (user, s2, rw (found, h) created, n, p, rw t2 (joined username user (table s1) n h1))

  module _ (jwt : Jwt) (settings : TokenSettings) where
    authenticate_lem :
        (username password : String) (now : ℕ) (s : S)
        → length (named username s) ≤ 1
        → (s' : S) × (authenticate session passwords jwt settings username password now s
            ≡ (token_for passwords jwt settings (head (named username s)) password now, s'))
          × (table s' ≡ table s)
    unfolding authenticate
    authenticate_lem username password now s few =
        let (s', found, t) = found_lem username s few in (s', rw found, t)

    refused :
        (users : List User) (password : String) (now : ℕ)
        → length users ≤ 1
        → ((user : User)
            → users ≡ user ∷ []
            → passwords.verify password user.hashed_password ≡ false)
        → token_for passwords jwt settings (head users) password now
          ≡ raise_app ErrorClass.invalid_credentials
    unfolding token_for
    refused [] password now few wrong = refl
    refused (user ∷ []) password now few wrong = rw (wrong user refl)
    refused (u ∷ v ∷ users) password now few wrong = absurd (omega arith)

    -- A login without an account and one with a wrong password are refused alike, so an answer does
    -- not tell which names exist; and no row changes.
    pub authenticate-refused :
        (username password : String) (now : ℕ) (s : S)
        → length (named username s) ≤ 1
        → ((user : User)
            → named username s ≡ user ∷ []
            → passwords.verify password user.hashed_password ≡ false)
        → (s' : S) × (authenticate session passwords jwt settings username password now s
            ≡ (raise_app ErrorClass.invalid_credentials, s'))
          × (table s' ≡ table s)
    authenticate-refused username password now s few wrong =
        let (s', answered, t) = authenticate_lem username password now s few in
        (s', answered ∙ ap (λ r. (r, s')) (refused (named username s) password now few wrong), t)

    -- Where bcrypt verifies what it hashed and JWT what it signed: whoever registers under a free
    -- name can log in with that password, and until the token expires it identifies the new user.
    pub register-authenticate :
        (username password : String) (salt now : ℕ) (s : S)
        → ((p : String) (n : ℕ) → passwords.verify p (passwords.hash p n) ≡ true)
        → Verifies jwt settings
        → named username s ≡ []
        → (user : User) × (s' : S) × (register session passwords username password salt s
            ≡ (ok user, s'))
          × ((token : String) × (s'' : S) × (authenticate session passwords jwt settings username
                  password now s'
                ≡ (ok (token, settings.access_token_expire_minutes * 60), s''))
              × ((later : ℕ)
                  → later ≤ now + settings.access_token_expire_minutes * 60
                  → get_current_principal jwt settings (some token) later
                    ≡ ok (record { id = user.id; username = username })))
    unfolding token_for
    register-authenticate username password salt now s bcrypt signed h =
        let (user, s1, made, n, p, mine) = registered username password salt s h in
        let (s2, answered, t) = authenticate_lem username password now s1 (rw mine (omega arith)) in
        let good : passwords.verify password user.hashed_password ≡ true =
          rw p (bcrypt password salt) in
        (
          user,
          s1,
          made,
          (
            create_access_token jwt settings username user.id now,
            s2,
            rw answered (rw (mine, good, n)),
            λ later before.
                get_current_principal-create jwt settings username user.id now later signed before,
          ),
        )
