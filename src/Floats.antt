-- ===== src/Floats.antt =====
-- What the program uses of Python's floats, as a parameter: `F` is the finite floats.
use fast_api_project.Prelude.{ℕ, ◌≡◌, ◌⊎◌, String, Bool, true, false, not, if◌then◌else◌}

pub record Floats (F : Type 0) : Type 0 where
  pub le : F → F → Bool
  pub add : F → F → F
  pub sub : F → F → F
  pub mul : F → F → F
  pub div : F → F → F
  pub log : F → F
  pub abs : F → F
  -- an int, and the quotient of two ints
  pub of_nat : ℕ → F
  pub ratio : ℕ → ℕ → F
  -- `round(x, n)` and `str(x)`
  pub round : F → ℕ → F
  pub repr : F → String

module _ {F : Type 0} (fl : Floats F) where
  -- `a < b`, where no operand is NaN
  abbrev pub lt : F → F → Bool
  lt a b = not (fl.le b a)

  -- `max(a, b)`
  abbrev pub max_float : F → F → F
  max_float a b = if fl.le b a then a else b

-- The order is total and transitive, as that of finite floats is.
pub record IsOrdered {F : Type 0} (fl : Floats F) : Type 0 where
  pub le_total : (a b : F) → (fl.le a b ≡ true) ⊎ (fl.le b a ≡ true)
  pub le_trans : (a b c : F) → fl.le a b ≡ true → fl.le b c ≡ true → fl.le a c ≡ true

-- Signs, which rounding keeps: of a difference, of the logarithm of a quotient of positive
-- numbers, of a product, and of a sum.
pub record HasSigns {F : Type 0} (fl : Floats F) (zero : F) : Type 0 where
  pub term_up :
      (e a : F)
      → fl.le e zero ≡ false
      → fl.le e a ≡ true
      → (fl.le zero (fl.sub a e) ≡ true) × (fl.le zero (fl.log (fl.div a e)) ≡ true)
  pub term_down :
      (e a : F)
      → fl.le a zero ≡ false
      → fl.le a e ≡ true
      → (fl.le (fl.sub a e) zero ≡ true) × (fl.le (fl.log (fl.div a e)) zero ≡ true)
  pub mul_up :
      (x y : F) → fl.le zero x ≡ true → fl.le zero y ≡ true → fl.le zero (fl.mul x y) ≡ true
  pub mul_down :
      (x y : F) → fl.le x zero ≡ true → fl.le y zero ≡ true → fl.le zero (fl.mul x y) ≡ true
  pub add_up :
      (x y : F) → fl.le zero x ≡ true → fl.le zero y ≡ true → fl.le zero (fl.add x y) ≡ true
