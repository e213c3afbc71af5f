-- ===== src/Scripts.antt =====
-- scripts/: the load test, the seeding of the database and the demonstration of drift. Python's
-- `random.Random` is a parameter, with its state passed along.
pub mod Cars
pub mod LoadTest
pub mod Seed
pub mod Benchmarks
pub mod Demo
mod Examples
use fast_api_project.Prelude.{ℕ, ◌≤◌, ◌<◌, ◌≡◌, String, true, false, List, length, get_or}
use fast_api_project.Floats.{Floats, IsOrdered}

-- `randrange(n)`, which is also the place that `choice` takes of n, `randint(a, b)` and `uniform(a, b)`
pub record Rng (F S : Type 0) : Type 0 where
  pub below : ℕ → S → ℕ × S
  pub between : ℕ → ℕ → S → ℕ × S
  pub uniform : ℕ → ℕ → S → F × S

-- What the documentation of `random` and of the floats promises.
pub record IsDocumented {F S : Type 0} (fl : Floats F) (rng : Rng F S) : Type 0 where
  pub ordered : IsOrdered fl
  pub below_lt : (n : ℕ) (s : S) → 0 < n → (rng.below n s).0 < n
  pub between_ge : (a b : ℕ) (s : S) → a ≤ b → a ≤ (rng.between a b s).0
  pub between_le : (a b : ℕ) (s : S) → a ≤ b → (rng.between a b s).0 ≤ b
  pub uniform_ge : (a b : ℕ) (s : S) → a ≤ b → fl.le (fl.of_nat a) (rng.uniform a b s).0 ≡ true
  pub uniform_le : (a b : ℕ) (s : S) → a ≤ b → fl.le (rng.uniform a b s).0 (fl.of_nat b) ≡ true
  -- rounding passes no whole number
  pub round_ge :
      (a : ℕ) (x : F) → fl.le (fl.of_nat a) x ≡ true → fl.le (fl.of_nat a) (fl.round x 1) ≡ true
  pub round_le :
      (a : ℕ) (x : F) → fl.le x (fl.of_nat a) ≡ true → fl.le (fl.round x 1) (fl.of_nat a) ≡ true
  pub of_nat_le : (a b : ℕ) → a ≤ b → fl.le (fl.of_nat a) (fl.of_nat b) ≡ true
  pub of_nat_lt : (a b : ℕ) → a < b → fl.le (fl.of_nat b) (fl.of_nat a) ≡ false

module _ {F S : Type 0} (fl : Floats F) (rng : Rng F S) where
  -- `rng.choice(values)`; the lists of the scripts are not empty.
  abbrev pub choice : {A : Type 0} → (otherwise : A) → List A → S → A × S
  choice otherwise values s =
      let drawn = rng.below (length values) s in (get_or values drawn.0 otherwise, drawn.1)

  -- `round(rng.uniform(low, high), 1)`
  abbrev pub tenths : ℕ → ℕ → S → F × S
  tenths low high s = let drawn = rng.uniform low high s in (fl.round drawn.0 1, drawn.1)
