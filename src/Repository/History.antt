-- ===== src/Repository/History.antt =====
-- What `history` of app/db/repositories.py returns.
use mathlib.Core.List.{Perm, Permᴰ}
use mathlib.Core.List.Permᴰ.{nil, cons, swap, trans}
use mathlib.Core.Logic.{∥∥₁_elim}
use mathlib.Core.Bool.{Bool-set}
use fast_api_project.Prelude.{
  Bool, false, ◌&&◌, refl, ◌∙◌, all, filter, take, drop, zero, suc, ◌==◌, str_eq, Bool-cases, inl,
  inr, length-take-le, ℕ, ◌≤◌, ◌≡◌, true, String, Option, none, some, List, [], ◌∷◌, length, All,
  eq_iff, arith,
}
use mathlib.Core.Path.{subst, fun_ext}
use fast_api_project.Exceptions.{ok}
use fast_api_project.Repository.{
  Prediction, Engine, IsSql, holds, matches, history_statement, history, created_at_desc, key_of,
  IsDescending,
}

module _ {A : Type 0} (p : A → Bool) where
  and_swap : (x y z : Bool) → x && (y && z) ≡ y && (x && z)
  and_swap true y z = refl
  and_swap false true z = refl
  and_swap false false u = refl

  all-Permᴰ : {xs ys : List A} → Permᴰ xs ys → all p xs ≡ all p ys
  all-Permᴰ nil = refl
  all-Permᴰ (cons {b = b} e d) = rw (e, all-Permᴰ d) refl
  all-Permᴰ (swap {a = a} {b = b} {l = l} e f) = rw (← e, ← f) (and_swap (p a) (p b) (all p l))
  all-Permᴰ (trans d e) = all-Permᴰ d ∙ all-Permᴰ e

  all-Perm : {xs ys : List A} → Perm xs ys → all p xs ≡ all p ys
  all-Perm same = ∥∥₁_elim same (Bool-set _ _) all-Permᴰ

  all-filter : (xs : List A) → all p (filter p xs) ≡ true
  all-filter [] = refl
  all-filter (x ∷ xs) = elim (Bool-cases (p x)) [
    | inl kept ↦ rw (kept, all-filter xs) (ground (arith, kept, all-filter xs))
    | inr out ↦ rw out (all-filter xs)
  ]

  all-drop : (n : ℕ) (xs : List A) → all p xs ≡ true → all p (drop n xs) ≡ true
  all-drop zero xs h = h
  all-drop (suc n) [] h = refl
  all-drop (suc n) (x ∷ xs) h = all-drop n xs (ground arith)

  all-take : (n : ℕ) (xs : List A) → all p xs ≡ true → all p (take n xs) ≡ true
  all-take zero xs h = refl
  all-take (suc n) [] h = refl
  all-take (suc n) (x ∷ xs) h = ground (arith, all-take n xs)

-- whether a row is the caller's, and of the brand and the year if these are given
abbrev is_user : Option ℕ → ℕ → Bool
is_user none user_id = false
is_user (some n) user_id = n == user_id

abbrev is_company : Option String → String → Bool
is_company none company = true
is_company (some c) company = str_eq company c

abbrev is_year : Option ℕ → ℕ → Bool
is_year none year = true
is_year (some y) year = year == y

abbrev pub is_asked : {N : Type 0} → ℕ → Option String → Option ℕ → Prediction N → Bool
is_asked user_id company year row =
    is_user row.user_id user_id && is_company company row.company && is_year year row.year

matches-history_statement :
    {N : Type 0} (user_id : ℕ) (company : Option String) (year : Option ℕ) (limit offset : ℕ)
    (row : Prediction N)
    → matches (history_statement user_id company year limit offset).conditions row
      ≡ is_asked user_id company year row
unfolding history_statement holds
matches-history_statement user_id none none limit offset row = ground arith
matches-history_statement user_id none (some y) limit offset row = ground arith
matches-history_statement user_id (some c) none limit offset row = ground arith
matches-history_statement user_id (some c) (some y) limit offset row = ground arith

-- the rows that a caller asks for: their own, of the brand and the year if these are given
abbrev pub IsAsked : {N : Type 0} → ℕ → Option String → Option ℕ → Prediction N → Type 0
IsAsked user_id company year row =
    (row.user_id ≡ some user_id)
    × ((c : String) → company ≡ some c → row.company ≡ c)
    × ((y : ℕ) → year ≡ some y → row.year ≡ y)

module _ {N : Type 0} (user_id : ℕ) (company : Option String) (year : Option ℕ) where
  is_asked-IsAsked :
      (row : Prediction N)
      → is_asked user_id company year row ≡ true
      → IsAsked user_id company year row
  is_asked-IsAsked row h = go company year h
    where
      go :
          (company : Option String) (year : Option ℕ)
          → is_asked user_id company year row ≡ true
          → IsAsked user_id company year row
      go none none h = (ground arith, λ c e. cc, λ y e. cc)
      go none (some y) h = (ground arith, λ c e. cc, λ y' e. ground arith)
      go (some c) none h = (ground arith, λ c' e. ground (arith, eq_iff row.company c), λ y e. cc)
      go (some c) (some y) h =
          (ground arith, λ c' e. ground (arith, eq_iff row.company c), λ y' e. ground arith)

  All-IsAsked :
      (rows : List (Prediction N))
      → all (is_asked user_id company year) rows ≡ true
      → All (IsAsked user_id company year) rows
  All-IsAsked [] h = tt
  All-IsAsked (row ∷ rows) h =
      (is_asked-IsAsked row (ground arith), All-IsAsked rows (ground arith))

  -- Some rows are a page of the history: all rows of the table that were asked for, newest first, are
  -- arranged, and `offset` and `limit` cut the page out.
  abbrev pub IsPage : (limit offset : ℕ) → (table rows : List (Prediction N)) → Type 0
  IsPage limit offset table rows =
      (arranged : List (Prediction N)) × Perm arranged
        (filter (is_asked user_id company year) table)
      × IsDescending (key_of created_at_desc) arranged
      × (rows ≡ take limit (drop offset arranged))

  pub IsPage-IsAsked :
      (limit offset : ℕ) (table rows : List (Prediction N))
      → IsPage limit offset table rows
      → All (IsAsked user_id company year) rows × (length rows ≤ limit)
  IsPage-IsAsked limit offset table rows (arranged, same, ordered, cut) =
      let p = is_asked {N = N} user_id company year in
      let sound : all p arranged ≡ true = all-Perm p same ∙ all-filter p table in
      (
        All-IsAsked rows (rw cut (all-take p limit _ (all-drop p offset arranged sound))),
        rw cut (length-take-le limit (drop offset arranged)),
      )

  -- On a database that answers, whatever the table holds, the history of a caller is a page of the caller's own
  -- predictions, of the brand and the year that were asked for, newest first, and reading it changes
  -- no row.
  pub history-IsPage :
      {S : Type 0} (engine : Engine N S) (table : S → List (Prediction N)) (limit offset : ℕ)
      (s : S)
      → IsSql engine table
      → (rows : List (Prediction N)) × ((s' : S) × (history engine user_id company year limit offset
              s
            ≡ (ok rows, s'))
          × (table s' ≡ table s))
        × IsPage limit offset (table s) rows
  unfolding history history_statement
  history-IsPage engine table limit offset s law =
      let q = history_statement user_id company year limit offset in
      let (arranged, same, ordered, (s', selected, t)) = law.select_rows q s in
      let p = fun_ext (matches-history_statement {N = N} user_id company year limit offset) in
      (
        take limit (drop offset arranged),
        (s', rw selected, t),
        (arranged, subst (λ m. Perm arranged (filter m (table s))) p same, ordered, refl),
      )
