-- ===== src/Drift.antt =====
-- app/services/drift.py: the Population Stability Index of live features against training.
-- Floats are a parameter, with the program's constants.
mod Examples
pub mod Bucket
pub mod Psi
pub mod Scores
pub mod Report
pub mod Monitor
use fast_api_project.Prelude.{
  ℕ, zero, suc, ◌+◌, ◌-◌, ◌/◌, String, Bool, true, false, not, Option, none, some, List, [], ◌∷◌,
  ◌++◌, length, get_elem?, set, replicate, map, filter, ltb, leb, ◌==◌, str_eq, if◌then◌else◌,
}
use fast_api_project.Floats.{Floats, lt, max_float}

infixl 5 ◌>>=◌
abbrev pub ◌>>=◌ : {A B : Type 0} → Option A → (A → Option B) → Option B
none >>= f = none
some a >>= f = f a

pub record Constants (F : Type 0) : Type 0 where
  pub stable : F
  pub significant : F
  pub epsilon : F
  pub min_expected_share : F
  pub zero_float : F

pub data Status : Type 0 where
  stable moderate significant unknown : Status

module _ {F : Type 0} (fl : Floats F) (k : Constants F) where
  unfoldable pub classify : F → Status
  classify psi =
      if lt fl psi k.stable
      then Status.stable
      else if lt fl psi k.significant
      then Status.moderate
      else Status.significant

  -- The loop of `psi`, from a total. `zip(…, strict=True)` raises ValueError, here `none`, on lists
  -- of different lengths.
  unfoldable pub psi_from : F → List F → List F → Option F
  psi_from total [] [] = some total
  psi_from total (e ∷ expected) (a ∷ actual) =
      let e' = max_float fl e k.epsilon in
      let a' = max_float fl a k.epsilon in
      psi_from (fl.add total (fl.mul (fl.sub a' e') (fl.log (fl.div a' e')))) expected actual
  psi_from total _ _ = none

  unfoldable pub psi : List F → List F → Option F
  unfolding psi_from
  psi expected actual = psi_from k.zero_float expected actual

-- `edges[-1]`
unfoldable pub last_edge : {F : Type 0} → F → List F → F
last_edge e [] = e
last_edge e (f ∷ rest) = last_edge f rest

-- `counts[i] += 1`
unfoldable pub increment : List ℕ → ℕ → Option (List ℕ)
increment counts i = elim (get_elem? counts i) [
  | none ↦ none
  | some c ↦ some (set counts i (c + 1))
]

module _ {F : Type 0} (fl : Floats F) where
  -- The loop of `_bucket`, on fuel; `none` where the fuel runs out, or for an index out of range.
  unfoldable pub bisect : ℕ → F → List F → ℕ → ℕ → Option ℕ
  bisect zero value edges low high = none
  bisect (suc fuel) value edges low high =
      let mid = (low + high) / 2 in
      let lower = bisect fuel value edges low mid in
      let upper = bisect fuel value edges mid high in
      let halved : Option ℕ = elim (get_elem? edges mid) [
        | none ↦ none
        | some edge ↦ if lt fl value edge then lower else upper
      ] in
      if ltb low (high - 1) then halved else some low

  -- `_bucket`. The loop runs less often than there are edges. No edge is an IndexError; with one
  -- edge the code returns 0 or -1, and both are out of range for its empty counts.
  unfoldable pub bucket : F → List F → Option ℕ
  unfolding bisect last_edge
  bucket value [] = none
  bucket value (e ∷ rest) =
      let n = length (e ∷ rest) in
      let searched = bisect n value (e ∷ rest) 0 (n - 1) in
      if fl.le value e
      then some 0
      else if fl.le (last_edge e rest) value
      then some (n - 2)
      else searched

  -- The loop over the values of a numeric feature.
  unfoldable pub count_values : List F → List F → List ℕ → Option (List ℕ)
  unfolding increment
  count_values [] edges counts = some counts
  count_values (value ∷ values) edges counts = do
    i ← bucket value edges
    counts' ← increment counts i
    count_values values edges counts'
