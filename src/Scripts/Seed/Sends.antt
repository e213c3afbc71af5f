-- ===== src/Scripts/Seed/Sends.antt =====
-- The database as scripts/seed_predictions.py relies on it, and what is sent to it.
use fast_api_project.Prelude.{
  ℕ, zero, suc, ◌+◌, ◌≡◌, refl, sym, ap, ◌∙◌, inl, inr, String, Option, some, List, [], ◌∷◌, ◌++◌,
  append-nil, append_assoc, map, All, All-append, length, Option-cases, arith,
}
use mathlib.Core.Path.{subst}
use fast_api_project.Scripts.Seed.{Cell, columns}
use fast_api_project.Scripts.Seed.Accounts.{IsTable, seed_name, insert_seeds, ensure_users}
use fast_api_project.Scripts.Seed.Loads.{concat}
use fast_api_project.Scripts.Seed.Storable.{IsStorable}
use fast_api_project.Scripts.Seed.Run.{Database, send_all}

pub All-imply :
    {A : Type 0} (P Q : A → Type 0) (xs : List A) → ((x : A) → P x → Q x) → All P xs → All Q xs
All-imply P Q [] f h = tt
All-imply P Q (x ∷ xs) f h = (f x h.0, All-imply P Q xs f h.1)

All-split : {A : Type 0} (P : A → Type 0) (xs ys : List A) → All P (xs ++ ys) → All P xs × All P ys
All-split P [] ys h = (tt, h)
All-split P (x ∷ xs) ys h = let (front, back) = All-split P xs ys h.1 in ((h.0, front), back)

abbrev pub singleton : {A : Type 0} → A → List A
singleton x = x ∷ []

pub concat-singleton : {A : Type 0} (xs : List A) → concat (map singleton xs) ≡ xs
concat-singleton [] = refl
concat-singleton (x ∷ xs) = ap (λ ys. x ∷ ys) (concat-singleton xs)

pub concat_self : {A : Type 0} (xss : List (List A)) → concat (map (λ xs. xs) xss) ≡ concat xss
concat_self [] = refl
concat_self (xs ∷ xss) = ap (λ ys. xs ++ ys) (concat_self xss)

-- the ids are of users
abbrev pub AllUsers : {S : Type 0} → (is_user : ℕ → S → Type 0) → List ℕ → S → Type 0
AllUsers is_user ids s = All (λ id. is_user id s) ids

-- an outcome with these rows added, and no user lost
abbrev pub Adds :
    {F S : Type 0}
    → (is_user : ℕ → S → Type 0) (rows_of : S → List (List (Cell F))) → List (List (Cell F))
    → S
    → Option S
    → Type 0
Adds {S = S} is_user rows_of rows s out =
    (s' : S) × (out ≡ some s')
    × (rows_of s' ≡ rows_of s ++ rows)
    × ((id : ℕ) → is_user id s → is_user id s')

module _ {F S : Type 0} (db : Database F S) (decimal : ℕ → String) (free : String → S → Type 0)
    (is_user : ℕ → S → Type 0) (rows_of : S → List (List (Cell F))) where
  -- Documented: the constraints of the tables decide what is accepted, what is accepted is added, and a
  -- TRUNCATE leaves no rows.
  pub record IsPostgres : Type 0 where
    pub table : IsTable db.users decimal free
    pub count_rows : (s : S) → db.count s ≡ length (rows_of s)
    pub first_users :
        (limit : ℕ) (s : S)
        → AllUsers is_user (db.users.first_ids limit s).0 (db.users.first_ids limit s).1
    pub first_rows : (limit : ℕ) (s : S) → rows_of (db.users.first_ids limit s).1 ≡ rows_of s
    pub insert_user :
        (name : String) (s s' : S) (id : ℕ)
        → db.users.insert name s ≡ some (id, s')
        → is_user id s'
          × ((other : ℕ) → is_user other s → is_user other s')
          × (rows_of s' ≡ rows_of s)
    pub truncate_all :
        (s : S)
        → (s' : S) × (db.truncate s ≡ some s')
          × (rows_of s' ≡ [])
          × ((name : String) → free name s → free name s')
    pub execute_row :
        (ids : List ℕ) (row : List (Cell F)) (s : S)
        → AllUsers is_user ids s
        → IsStorable ids columns row
        → Adds is_user rows_of (row ∷ []) s (db.execute row s)
    pub copy_batch :
        (ids : List ℕ) (batch : List (List (Cell F))) (s : S)
        → AllUsers is_user ids s
        → All (λ row. IsStorable ids columns row) batch
        → Adds is_user rows_of batch s (db.copy_records batch s)

  module _ (law : IsPostgres) where
    insert_seeds-users :
        (missing i : ℕ) (ids out : List ℕ) (s s' : S)
        → AllUsers is_user ids s
        → insert_seeds db.users decimal missing i ids s ≡ some (out, s')
        → AllUsers is_user out s' × (rows_of s' ≡ rows_of s)
    unfolding insert_seeds
    insert_seeds-users zero i ids out s s' users e =
        let same : ids ≡ out = cc in
        let kept : s ≡ s' = cc in
        (
          subst (λ l. AllUsers is_user l s') same (subst (λ t. AllUsers is_user ids t) kept users),
          ap rows_of (sym kept),
        )
    insert_seeds-users (suc missing) i ids out s s' users e =
        elim (Option-cases (db.users.insert (seed_name db.users decimal i) s)) [
          | inl taken ↦ absurd (ground (arith, taken))
          | inr ((id, t), inserted) ↦
              let (new, others, rows) = law.insert_user _ s t id inserted in
              let users' : AllUsers is_user (ids ++ id ∷ []) t =
                All-append (λ j. is_user j t) ids (id ∷ []) (All-imply _ _ ids others users)
                  (new, tt) in
              let (all, kept) =
                insert_seeds-users missing (i + 1) (ids ++ id ∷ []) out t s' users'
                  (ground (arith, inserted)) in
              (all, kept ∙ rows)
        ]

    pub send_all-Adds :
        {A : Type 0} (send : A → S → Option S) (part : A → List (List (Cell F))) (ids : List ℕ)
        → ((x : A) (s : S)
            → AllUsers is_user ids s
            → All (λ row. IsStorable ids columns row) (part x)
            → Adds is_user rows_of (part x) s (send x s))
        → (xs : List A) (s : S) → AllUsers is_user ids s
        → All (λ row. IsStorable ids columns row) (concat (map part xs))
        → Adds is_user rows_of (concat (map part xs)) s (send_all send xs s)
    unfolding send_all
    send_all-Adds send part ids step [] s users storable =
        (s, refl, sym (append-nil (rows_of s)), λ id u. u)
    send_all-Adds send part ids step (x ∷ xs) s users storable =
        let (now, later) = All-split _ (part x) (concat (map part xs)) storable in
        let (t, sent, rows, keeps) = step x s users now in
        let (s', rest, rows', keeps') =
          send_all-Adds send part ids step xs t (All-imply _ _ ids keeps users) later in
        (
          s',
          rw sent rest,
          rows' ∙ ap (λ l. l ++ concat (map part xs)) rows ∙ append_assoc (rows_of s) (part x) _,
          λ id u. keeps' id (keeps id u),
        )

    pub ensure_users-users :
        (how_many : ℕ) (out : List ℕ) (s s' : S)
        → ensure_users db.users decimal how_many s ≡ some (out, s')
        → AllUsers is_user out s' × (rows_of s' ≡ rows_of s)
    unfolding ensure_users
    ensure_users-users how_many out s s' e =
        let (users, rows) = insert_seeds-users _ _ _ out _ s' (law.first_users how_many s) e in
        (users, rows ∙ law.first_rows how_many s)
