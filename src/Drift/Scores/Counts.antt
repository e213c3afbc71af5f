-- ===== src/Drift/Scores/Counts.antt =====
-- Every value of a sample is counted once, in the loops of app/services/drift.py.
use fast_api_project.Prelude.{
  ℕ, zero, suc, ◌+◌, ◌<◌, ◌≡◌, refl, ◌∙◌, String, some, List, [], ◌∷◌, length, get_or, set,
  replicate, map, length-set, get_elem?-get_or, arith,
}
use fast_api_project.Floats.{Floats, IsOrdered}
use fast_api_project.Drift.{Constants, increment, count_values}
use fast_api_project.Drift.Bucket.{bucket-IsBin}
use fast_api_project.Drift.Scores.{Cell, observe, key_of, observe_all}

abbrev pub sum : List ℕ → ℕ
sum [] = 0
sum (n ∷ ns) = n + sum ns

sum-set : (ns : List ℕ) (i : ℕ) → i < length ns → sum (set ns i (get_or ns i 0 + 1)) ≡ sum ns + 1
sum-set [] i h = elim h [ ]
sum-set (n ∷ ns) zero h = omega arith
sum-set (n ∷ ns) (suc i) h = omega (arith, sum-set ns i (omega arith))

sum-replicate : (n : ℕ) → sum (replicate n 0) ≡ 0
sum-replicate zero = refl
sum-replicate (suc n) = omega (arith, sum-replicate n)

increment-some :
    (counts : List ℕ) (i : ℕ)
    → i < length counts
    → (counts' : List ℕ) × (increment counts i ≡ some counts')
      × (length counts' ≡ length counts)
      × (sum counts' ≡ sum counts + 1)
unfolding increment
increment-some counts i h = (
  set counts i (get_or counts i 0 + 1),
  rw (get_elem?-get_or counts i 0 h, increment),
  length-set counts i _,
  sum-set counts i h,
)

module _ {F : Type 0} (fl : Floats F) where
  -- For ordered floats and two edges at least, the histogram has a count for each bin, and each value adds one to
  -- one of them: nothing is out of range and no value is lost.
  pub count_values-sum :
      (values : List F) (e f : F) (rest : List F) (counts : List ℕ)
      → IsOrdered fl
      → length counts ≡ length rest + 1
      → (counts' : List ℕ) × (count_values fl values (e ∷ f ∷ rest) counts ≡ some counts')
        × (length counts' ≡ length counts)
        × (sum counts' ≡ sum counts + length values)
  unfolding count_values
  count_values-sum [] e f rest counts ordered n = (counts, refl, refl, omega arith)
  count_values-sum (v ∷ values) e f rest counts ordered n =
      let (i, found, in_range, _, _, _) = bucket-IsBin fl v e f rest ordered in
      let (counts', raised, len, total) = increment-some counts i (omega arith) in
      let (out, done, len', total') = count_values-sum values e f rest counts' ordered (len ∙ n) in
      (out, rw (found, count_values, raised) done, len' ∙ len, omega arith)

observe-sum :
    (key : String) (observed : List (String × ℕ)) (other : ℕ)
    → (length (observe key observed other).0 ≡ length observed)
      × (sum (map (λ e. e.1) (observe key observed other).0) + (observe key observed other).1
          ≡ sum (map (λ e. e.1) observed) + other + 1)
unfolding observe
observe-sum key [] other = (refl, omega arith)
observe-sum key ((c, n) ∷ observed) other = ground (arith, observe-sum key observed other)

module _ {F : Type 0} (fl : Floats F) (k : Constants F) where
  -- Each value of a categorical feature adds one to its category, or to the bucket of everything
  -- else, and the categories stay as many.
  pub observe_all-sum :
      (values : List (Cell F)) (observed : List (String × ℕ)) (other : ℕ)
      → (let out = observe_all fl k values observed other in
          (length out.0 ≡ length observed)
          × (sum (map (λ e. e.1) out.0) + out.1
              ≡ sum (map (λ e. e.1) observed) + other + length values))
  unfolding observe_all
  observe_all-sum [] observed other = (refl, omega arith)
  observe_all-sum (v ∷ values) observed other =
      let key = key_of fl k v in
      let (len, total) = observe-sum key observed other in
      let (len', total') =
        observe_all-sum values (observe key observed other).0 (observe key observed other).1 in
      (len' ∙ len, omega arith)
