-- ===== src/Scripts/Seed/Accounts.antt =====
-- `ensure_users` of scripts/seed_predictions.py. The table of users is a parameter.
use fast_api_project.Prelude.{
  ℕ, sym, zero, suc, ◌+◌, ◌-◌, ◌≤◌, ◌≡◌, refl, ap, ◌∙◌, String, Option, none, some, List, [], ◌∷◌,
  ◌++◌, length, length-append, append-nil, append_assoc, arith,
}
use Prim.Native.String

-- `SELECT id FROM users ORDER BY id LIMIT n`, and the insert of a user with its new id. The insert raises
-- where the name is taken.
pub record Users (S : Type 0) : Type 0 where
  pub first_ids : (limit : ℕ) → S → List ℕ × S
  pub insert : (username : String) → S → Option (ℕ × S)

module _ {S : Type 0} (users : Users S) (decimal : ℕ → String) where
  abbrev pub seed_name : ℕ → String
  seed_name i = String.◌++◌ "seed-user-" (decimal i)

  abbrev pub add_id : Option (ℕ × S) → (ℕ → S → Option (List ℕ × S)) → Option (List ℕ × S)
  add_id none next = none
  add_id (some (id, s)) next = next id s

  -- the loop over `range(i, i + missing)`
  unfoldable pub insert_seeds : (missing i : ℕ) → List ℕ → S → Option (List ℕ × S)
  insert_seeds zero i ids s = some (ids, s)
  insert_seeds (suc missing) i ids s =
      add_id (users.insert (seed_name i) s)
        λ id s'. insert_seeds missing (i + 1) (ids ++ id ∷ []) s'

  unfoldable pub ensure_users : (how_many : ℕ) → S → Option (List ℕ × S)
  unfolding insert_seeds
  ensure_users how_many s =
      let found = users.first_ids how_many s in
      insert_seeds (how_many - length found.0) (length found.0) found.0 found.1

  -- Documented: a LIMIT is kept.
  pub record IsTable (free : String → S → Type 0) : Type 0 where
    pub first_ids-le : (limit : ℕ) (s : S) → length (users.first_ids limit s).0 ≤ limit
    pub first_ids-free :
        (limit : ℕ) (s : S) (name : String) → free name s → free name (users.first_ids limit s).1
    -- a free name can be inserted, and takes no other
    pub insert_free :
        (name : String) (s : S)
        → free name s
        → (id : ℕ) × (s' : S) × (users.insert name s ≡ some (id, s'))
          × ((other : String) → (other ≡ name → ⊥) → free other s → free other s')

  module _ (free : String → S → Type 0) (table : IsTable free)
      (distinct : (i j : ℕ) → seed_name i ≡ seed_name j → i ≡ j) where
    insert_seeds-length :
        (missing i : ℕ) (ids : List ℕ) (s : S)
        → ((j : ℕ) → i ≤ j → free (seed_name j) s)
        → (new : List ℕ) × (s' : S) × (insert_seeds missing i ids s ≡ some (ids ++ new, s'))
          × (length new ≡ missing)
    unfolding insert_seeds
    insert_seeds-length zero i ids s h = ([], s, ap (λ l. some (l, s)) (sym (append-nil ids)), refl)
    insert_seeds-length (suc missing) i ids s h =
        let (id, s', inserted, others) = table.insert_free (seed_name i) s (h i (omega arith)) in
        let still : (j : ℕ) → i + 1 ≤ j → free (seed_name j) s' =
          λ j k. others (seed_name j) (λ e. ground (arith, distinct j i e)) (h j (omega arith)) in
        let (new, s'', rest, n) = insert_seeds-length missing (i + 1) (ids ++ id ∷ []) s' still in
        (
          id ∷ new,
          s'',
          rw inserted (rest ∙ ap (λ l. some (l, s'')) (append_assoc ids (id ∷ []) new)),
          ap suc n,
        )

    -- Where the table keeps a LIMIT, seed names are written differently, and those from the number of users
    -- on are free: `ensure_users` raises nothing, and gives exactly how_many ids, first those that it found.
    pub ensure_users-length :
        (how_many : ℕ) (s : S)
        → ((j : ℕ) → length (users.first_ids how_many s).0 ≤ j → free (seed_name j) s)
        → (new : List ℕ) × (s' : S) × (ensure_users how_many s
            ≡ some ((users.first_ids how_many s).0 ++ new, s'))
          × (length ((users.first_ids how_many s).0 ++ new) ≡ how_many)
    unfolding ensure_users
    ensure_users-length how_many s h =
        let (found, s₁) = users.first_ids how_many s in
        let (new, s', ensured, n) =
          insert_seeds-length (how_many - length found) (length found) found s₁
            (λ j k. table.first_ids-free how_many s (seed_name j) (h j k)) in
        (new, s', ensured, omega (arith, length-append found new, n, table.first_ids-le how_many s))
