-- ===== src/Drift/Psi.antt =====
-- The index itself (`psi` of app/services/drift.py).
use fast_api_project.Prelude.{◌≡◌, refl, true, false, some, List, [], ◌∷◌, length, inl, inr, arith}
use fast_api_project.Floats.{Floats, max_float, IsOrdered, HasSigns}
use fast_api_project.Drift.{Constants, psi_from, psi}

module _ {F : Type 0} (fl : Floats F) (k : Constants F) where
  psi_from-total :
      (expected actual : List F) (total : F)
      → length expected ≡ length actual
      → (t : F) × (psi_from fl k total expected actual ≡ some t)
  unfolding psi_from
  psi_from-total [] [] total e = (total, refl)
  psi_from-total [] (a ∷ actual) total e = absurd (omega arith)
  psi_from-total (e' ∷ expected) [] total e = absurd (omega arith)
  psi_from-total (e' ∷ expected) (a ∷ actual) total e =
      psi_from-total expected actual _ (omega arith)

  -- Two lists of one length have an index: the strict `zip` does not raise.
  pub psi-total :
      (expected actual : List F)
      → length expected ≡ length actual
      → (t : F) × (psi fl k expected actual ≡ some t)
  unfolding psi
  psi-total expected actual e = psi_from-total expected actual k.zero_float e

  floor_pos :
      (x : F)
      → IsOrdered fl
      → fl.le k.epsilon k.zero_float ≡ false
      → fl.le (max_float fl x k.epsilon) k.zero_float ≡ false
  floor_pos x ordered pos = ground (arith, ordered.le_trans k.epsilon x k.zero_float)

  -- one term of the sum, for floored shares
  term_nonneg :
      (e a : F)
      → IsOrdered fl
      → HasSigns fl k.zero_float
      → fl.le e k.zero_float ≡ false
      → fl.le a k.zero_float ≡ false
      → fl.le k.zero_float (fl.mul (fl.sub a e) (fl.log (fl.div a e))) ≡ true
  term_nonneg e a ordered signs pe pa = elim (ordered.le_total e a) [
    | inl up ↦ let (d, l) = signs.term_up e a pe up in signs.mul_up _ _ d l
    | inr down ↦ let (d, l) = signs.term_down e a pa down in signs.mul_down _ _ d l
  ]

  psi_from_nonneg :
      (expected actual : List F) (total t : F)
      → IsOrdered fl
      → HasSigns fl k.zero_float
      → fl.le k.epsilon k.zero_float ≡ false
      → fl.le k.zero_float total ≡ true
      → psi_from fl k total expected actual ≡ some t
      → fl.le k.zero_float t ≡ true
  unfolding psi_from
  psi_from_nonneg [] [] total t ordered signs pos h e = ground arith
  psi_from_nonneg (x ∷ xs) (y ∷ ys) total t ordered signs pos h e =
      psi_from_nonneg xs ys _ t ordered signs pos
        (signs.add_up _ _ h
          (term_nonneg _ _ ordered signs (floor_pos x ordered pos) (floor_pos y ordered pos)))
        e
  psi_from_nonneg [] (y ∷ ys) total t ordered signs pos h e = cc
  psi_from_nonneg (x ∷ xs) [] total t ordered signs pos h e = cc

  -- With a positive floor, and an order and signs that rounding keeps, an index that is computed is
  -- never negative, whatever the shares.
  pub psi_nonneg :
      (t : F) (expected actual : List F)
      → IsOrdered fl
      → HasSigns fl k.zero_float
      → fl.le k.epsilon k.zero_float ≡ false
      → psi fl k expected actual ≡ some t
      → fl.le k.zero_float t ≡ true
  unfolding psi
  psi_nonneg t expected actual ordered signs pos e =
      psi_from_nonneg expected actual k.zero_float t ordered signs pos
        (ground (arith, ordered.le_total k.zero_float k.zero_float)) e
