-- ===== src/Repository/Memory.antt =====
-- A table kept in memory, with an open transaction: an engine that does what the queries of
-- app/db/repositories.py expect of a database.
use mathlib.Core.List.{Perm}
use mathlib.Core.List.Perm
use fast_api_project.Prelude.{
  ℕ, ◌≤◌, leb, leb→le, arith, refl, some, List, [], ◌∷◌, map, filter, take, drop, All,
  if◌then◌else◌, Bool-cases, inl, inr,
}
use fast_api_project.Database.{done}
use fast_api_project.Repository.{
  Prediction, Condition, Select, matches, Engine, IsSql, key_of, IsDescending,
}

-- the rows committed, and the rows as the open transaction has them
abbrev pub Memory : Type 0
Memory = List (Prediction ℕ) × List (Prediction ℕ)

abbrev settle_all : List Condition → ℕ → List (Prediction ℕ) → List (Prediction ℕ)
settle_all conditions price rows =
    map (λ row. if matches conditions row then record row { actual_price = some price } else row)
      rows

abbrev insert_by : (Prediction ℕ → ℕ) → Prediction ℕ → List (Prediction ℕ) → List (Prediction ℕ)
insert_by key r [] = r ∷ []
insert_by key r (q ∷ rows) =
    let rest = insert_by key r rows in if leb (key q) (key r) then r ∷ q ∷ rows else q ∷ rest

abbrev sort_by : (Prediction ℕ → ℕ) → List (Prediction ℕ) → List (Prediction ℕ)
sort_by key [] = []
sort_by key (r ∷ rows) = insert_by key r (sort_by key rows)

abbrev found : Select → List (Prediction ℕ) → List (Prediction ℕ)
found q rows =
    take q.limit (drop q.offset (sort_by (key_of q.order_by) (filter (matches q.conditions) rows)))

abbrev pub memory : Engine ℕ Memory
memory = record {
  select = λ q s. done (found q s.0) s;
  select_ids = λ conditions s. done (map (λ row. row.id) (filter (matches conditions) s.0)) s;
  update_actual = λ conditions price s.
      done (map (λ row. row.predicted_price) (filter (matches conditions) s.0))
        (s.0, settle_all conditions price s.0);
  commit = λ s. done tt (s.1, s.1);
}

module _ (key : Prediction ℕ → ℕ) where
  All-le :
      (m n : ℕ) (rows : List (Prediction ℕ))
      → m ≤ n
      → All (λ r. key r ≤ m) rows
      → All (λ r. key r ≤ n) rows
  All-le m n [] h a = tt
  All-le m n (r ∷ rows) h (here, a) = (omega arith, All-le m n rows h a)

  insert_by-All :
      (n : ℕ) (r : Prediction ℕ) (rows : List (Prediction ℕ))
      → key r ≤ n
      → All (λ q. key q ≤ n) rows
      → All (λ q. key q ≤ n) (insert_by key r rows)
  insert_by-All n r [] h a = (h, tt)
  insert_by-All n r (q ∷ rows) h (here, a) = elim (Bool-cases (leb (key q) (key r))) [
    | inl first ↦ rw first (h, (here, a))
    | inr later ↦ rw later (here, insert_by-All n r rows h a)
  ]

  insert_by-IsDescending :
      (r : Prediction ℕ) (rows : List (Prediction ℕ))
      → IsDescending key rows
      → IsDescending key (insert_by key r rows)
  insert_by-IsDescending r [] d = (tt, tt)
  insert_by-IsDescending r (q ∷ rows) (below, d) = elim (Bool-cases (leb (key q) (key r))) [
    | inl first ↦
        let le = leb→le (key q) (key r) first in
        rw first ((le, All-le (key q) (key r) rows le below), (below, d))
    | inr later ↦ rw later (
      insert_by-All (key q) r rows (ground (arith, later)) below,
      insert_by-IsDescending r rows d,
    )
  ]

  insert_by-perm :
      (r : Prediction ℕ) (rows : List (Prediction ℕ)) → Perm (insert_by key r rows) (r ∷ rows)
  insert_by-perm r [] = Perm.refl _
  insert_by-perm r (q ∷ rows) = elim (Bool-cases (leb (key q) (key r))) [
    | inl first ↦ rw first (Perm.refl _)
    | inr later ↦ rw later (Perm.trans (Perm.cons q (insert_by-perm r rows)) (Perm.swap r q rows))
  ]

  sort_by-IsDescending : (rows : List (Prediction ℕ)) → IsDescending key (sort_by key rows)
  sort_by-IsDescending [] = tt
  sort_by-IsDescending (r ∷ rows) = insert_by-IsDescending r _ (sort_by-IsDescending rows)

  sort_by-perm : (rows : List (Prediction ℕ)) → Perm (sort_by key rows) rows
  sort_by-perm [] = Perm.refl []
  sort_by-perm (r ∷ rows) =
      Perm.trans (insert_by-perm r (sort_by key rows)) (Perm.cons r (sort_by-perm rows))

pub memory-IsSql : IsSql memory (λ s. s.0)
memory-IsSql = record {
  select_rows = λ q s. (
    sort_by (key_of q.order_by) (filter (matches q.conditions) s.0),
    sort_by-perm (key_of q.order_by) (filter (matches q.conditions) s.0),
    sort_by-IsDescending (key_of q.order_by) (filter (matches q.conditions) s.0),
    (s, refl, refl),
  );
  select_ids_rows = λ conditions s. (s, refl, refl);
  update_rows = λ conditions price s. (
    (s.0, settle_all conditions price s.0),
    refl,
    ((settle_all conditions price s.0, settle_all conditions price s.0), refl, refl),
  );
}
