-- ===== src/Drift/Bucket.antt =====
-- The search of app/services/drift.py for the bin of a value.
use fast_api_project.Prelude.{
  ℕ, zero, suc, ◌+◌, ◌-◌, ◌/◌, ◌≤◌, ◌<◌, ◌≡◌, refl, ap, true, false, some, List, [], ◌∷◌, length,
  get_or, get_elem?-get_or, ltb, Bool-cases, inl, inr, arith,
}
use fast_api_project.Floats.{Floats, IsOrdered}
use fast_api_project.Drift.{bisect, last_edge, bucket}

last_edge-get_or :
    {F : Type 0} (d e : F) (rest : List F) → get_or (e ∷ rest) (length rest) d ≡ last_edge e rest
unfolding last_edge
last_edge-get_or d e [] = refl
last_edge-get_or d e (f ∷ rest) = last_edge-get_or d f rest

module _ {F : Type 0} (fl : Floats F) where
  -- `low` is a bin whose lower edge is at most the value and whose upper edge is above it
  abbrev pub IsBin : F → List F → F → ℕ → Type 0
  IsBin value edges d i =
      (i + 2 ≤ length edges)
      × (fl.le (get_or edges i d) value ≡ true)
      × (fl.le (get_or edges (i + 1) d) value ≡ false)

  bisect-IsBin :
      (fuel : ℕ) (value : F) (edges : List F) (d : F) (low high : ℕ)
      → high - low < fuel
      → low < high
      → high < length edges
      → fl.le (get_or edges low d) value ≡ true
      → fl.le (get_or edges high d) value ≡ false
      → (i : ℕ) × (bisect fl fuel value edges low high ≡ some i) × IsBin value edges d i
  unfolding bisect
  bisect-IsBin zero value edges d low high f _ _ _ _ = elim f [ ]
  bisect-IsBin (suc fuel) value edges d low high f lt_high in_range at_low at_high =
      elim (Bool-cases (ltb low (high - 1))) [
        | inr done ↦
            let next : high ≡ low + 1 = ground (arith, done) in
            (low, rw done, (omega arith, at_low, rw (← next) at_high))
        | inl more ↦
            let mid = (low + high) / 2 in
            let gap : low + 1 < high = ground (arith, more) in
            let found = get_elem?-get_or edges mid d (omega arith) in
            elim (Bool-cases (fl.le (get_or edges mid d) value)) [
              | inl above ↦
                  let (i, e, b) =
                    bisect-IsBin fuel value edges d mid high (omega arith) (omega arith) in_range
                      above at_high in
                  (i, rw (more, found, above) e, b)
              | inr below ↦
                  let (i, e, b) =
                    bisect-IsBin fuel value edges d low mid (omega arith) (omega arith)
                      (omega arith) at_low below in
                  (i, rw (more, found, below) e, b)
            ]
      ]

  -- For ordered floats and two edges or more, whether or not they ascend, the search ends, and puts a
  -- value in the first bin if it is at most the first edge, in the
  -- last one if it is above the first edge and at least the last, and otherwise in a bin whose
  -- lower edge is at most the value and whose upper edge is above it.
  pub bucket-IsBin :
      (value e f : F) (rest : List F)
      → IsOrdered fl
      → (let edges = e ∷ f ∷ rest in
          (i : ℕ) × (bucket fl value edges ≡ some i)
          × (i + 2 ≤ length edges)
          × (fl.le value e ≡ true → i ≡ 0)
          × (fl.le value e ≡ false → fl.le (last_edge f rest) value ≡ true → i + 2 ≡ length edges)
          × (fl.le value e ≡ false
              → fl.le (last_edge f rest) value ≡ false
              → IsBin value edges e i))
  unfolding bucket last_edge
  bucket-IsBin value e f rest ordered = elim (Bool-cases (fl.le value e)) [
    | inl below ↦ (
      0,
      rw below,
      omega arith,
      ground (arith, below),
      ground (arith, below),
      ground (arith, below),
    )
    | inr above ↦ elim (Bool-cases (fl.le (last_edge f rest) value)) [
      | inl beyond ↦ (
        length rest,
        rw (above, beyond) (ap some (omega arith)),
        omega arith,
        ground (arith, above),
        λ _ _. omega arith,
        ground (arith, beyond),
      )
      | inr within ↦
          let edges = e ∷ f ∷ rest in
          let last : length edges - 1 ≡ suc (length rest) = omega arith in
          let starts : fl.le e value ≡ true = ground (arith, ordered.le_total value e) in
          let ends : fl.le (get_or edges (length edges - 1) e) value ≡ false =
            rw (last, last_edge-get_or e f rest) within in
          let (i, found, bin) =
            bisect-IsBin (length edges) value edges e 0 (length edges - 1) (omega arith)
              (omega arith) (omega arith) starts ends in
          (
            i,
            rw (above, within) found,
            bin.0,
            ground (arith, above),
            ground (arith, within),
            λ _ _. bin,
          )
    ]
  ]
