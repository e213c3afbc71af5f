-- ===== src/Scripts/LoadTest/Percentile.antt =====
-- `percentile` of scripts/load_test.py takes the value of its rank.
use fast_api_project.Prelude.{
  ℕ, zero, suc, ◌+◌, ◌-◌, ◌≤◌, ◌<◌, max, ◌≡◌, refl, ap, ◌∙◌, Bool, true, false, List, [], ◌∷◌, All,
  length, get_or, filter, Bool-cases, inl, inr, arith,
}
use fast_api_project.Floats.{Floats, IsOrdered, lt}
use fast_api_project.Scripts.LoadTest.{insert_sorted, sorted, percentile}

module _ {F : Type 0} (fl : Floats F) where
  abbrev count : (F → Bool) → List F → ℕ
  count p xs = length (filter p xs)

  count-none : (p : F → Bool) (xs : List F) → All (λ x. p x ≡ false) xs → count p xs ≡ 0
  count-none p [] a = refl
  count-none p (x ∷ xs) (here, a) = rw here (count-none p xs a)

  count-cons-le : (p : F → Bool) (x : F) (xs : List F) → count p (x ∷ xs) ≤ count p xs + 1
  count-cons-le p x xs = ground arith

  length-insert_sorted : (x : F) (xs : List F) → length (insert_sorted fl x xs) ≡ suc (length xs)
  unfolding insert_sorted
  length-insert_sorted x [] = refl
  length-insert_sorted x (y ∷ ys) = ground (arith, length-insert_sorted x ys)

  length-sorted : (xs : List F) → length (sorted fl xs) ≡ length xs
  unfolding sorted
  length-sorted [] = refl
  length-sorted (x ∷ xs) = length-insert_sorted x (sorted fl xs) ∙ ap suc (length-sorted xs)

  count-insert_sorted :
      (p : F → Bool) (x : F) (xs : List F) → count p (insert_sorted fl x xs) ≡ count p (x ∷ xs)
  unfolding insert_sorted
  count-insert_sorted p x [] = refl
  count-insert_sorted p x (y ∷ ys) = ground (arith, count-insert_sorted p x ys)

  count-sorted : (p : F → Bool) (xs : List F) → count p (sorted fl xs) ≡ count p xs
  unfolding sorted
  count-sorted p [] = refl
  count-sorted p (x ∷ xs) =
      ground (arith, count-insert_sorted p x (sorted fl xs), count-sorted p xs)

  abbrev IsAscending : List F → Type 0
  IsAscending [] = Unit
  IsAscending (x ∷ xs) = All (λ y. fl.le x y ≡ true) xs × IsAscending xs

  All-get_or :
      (P : F → Type 0) (xs : List F) (i : ℕ) (otherwise : F)
      → All P xs
      → i < length xs
      → P (get_or xs i otherwise)
  All-get_or P [] i otherwise a h = absurd (omega arith)
  All-get_or P (x ∷ xs) zero otherwise (here, a) h = here
  All-get_or P (x ∷ xs) (suc i) otherwise (here, a) h = All-get_or P xs i otherwise a (omega arith)

  module _ (ordered : IsOrdered fl) where
    below-All :
        (x y : F) (ys : List F)
        → fl.le x y ≡ true
        → All (λ z. fl.le y z ≡ true) ys
        → All (λ z. fl.le x z ≡ true) ys
    below-All x y [] h a = tt
    below-All x y (z ∷ zs) h (here, a) = (ordered.le_trans x y z h here, below-All x y zs h a)

    insert_sorted-All :
        (b x : F) (ys : List F)
        → fl.le b x ≡ true
        → All (λ z. fl.le b z ≡ true) ys
        → All (λ z. fl.le b z ≡ true) (insert_sorted fl x ys)
    unfolding insert_sorted
    insert_sorted-All b x [] h a = (h, tt)
    insert_sorted-All b x (y ∷ ys) h (here, a) = elim (Bool-cases (fl.le x y)) [
      | inl first ↦ rw first (h, (here, a))
      | inr later ↦ rw later (here, insert_sorted-All b x ys h a)
    ]

    insert_sorted-IsAscending :
        (x : F) (ys : List F) → IsAscending ys → IsAscending (insert_sorted fl x ys)
    unfolding insert_sorted
    insert_sorted-IsAscending x [] a = (tt, tt)
    insert_sorted-IsAscending x (y ∷ ys) (here, a) = elim (Bool-cases (fl.le x y)) [
      | inl first ↦ rw first ((first, below-All x y ys first here), (here, a))
      | inr later ↦
          let above : fl.le y x ≡ true = ground (arith, ordered.le_total x y) in
          rw later (insert_sorted-All y x ys above here, insert_sorted-IsAscending x ys a)
    ]

    sorted-IsAscending : (xs : List F) → IsAscending (sorted fl xs)
    unfolding sorted
    sorted-IsAscending [] = tt
    sorted-IsAscending (x ∷ xs) = insert_sorted-IsAscending x (sorted fl xs) (sorted-IsAscending xs)

    not_less :
        (x : F) (ys : List F) → All (λ y. fl.le x y ≡ true) ys → All (λ y. lt fl y x ≡ false) ys
    not_less x [] a = tt
    not_less x (y ∷ ys) (here, a) = (rw here refl, not_less x ys a)

    le_refl : (x : F) → fl.le x x ≡ true
    le_refl x = ground (arith, ordered.le_total x x)

    -- at a place of an ascending list: enough values up to that one, and not too many below it
    ascending-place :
        (xs : List F) (i : ℕ) (otherwise : F)
        → IsAscending xs
        → i < length xs
        → (count (λ y. lt fl y (get_or xs i otherwise)) xs ≤ i)
          × (i < count (λ y. fl.le y (get_or xs i otherwise)) xs)
    ascending-place [] i otherwise a h = absurd (omega arith)
    ascending-place (x ∷ xs) zero otherwise (here, a) h =
        let r = le_refl x in
        let none_below = count-none (λ y. lt fl y x) (x ∷ xs) (rw r refl, not_less x xs here) in
        (omega (arith, none_below), rw r (omega arith))
    ascending-place (x ∷ xs) (suc i) otherwise (here, a) h =
        let (few, enough) = ascending-place xs i otherwise a (omega arith) in
        let above = All-get_or (λ y. fl.le x y ≡ true) xs i otherwise here (omega arith) in
        (
          omega (arith, few, count-cons-le (λ y. lt fl y (get_or xs i otherwise)) x xs),
          rw above (omega (arith, enough)),
        )

    sorted-place :
        (xs : List F) (r : ℕ) (otherwise : F)
        → 1 ≤ r
        → r ≤ length xs
        → (count (λ y. lt fl y (get_or (sorted fl xs) (r - 1) otherwise)) xs < r)
          × (r ≤ count (λ y. fl.le y (get_or (sorted fl xs) (r - 1) otherwise)) xs)
    sorted-place xs r otherwise h k =
        let value = get_or (sorted fl xs) (r - 1) otherwise in
        let (few, enough) =
          ascending-place (sorted fl xs) (r - 1) otherwise (sorted-IsAscending xs)
            (omega (arith, length-sorted xs)) in
        (
          omega (arith, few, count-sorted (λ y. lt fl y value) xs),
          omega (arith, enough, count-sorted (λ y. fl.le y value) xs),
        )

    -- For ordered floats, at least one value and a rank r = max(1, ceil(p / 100 * n)) of at most n: the
    -- percentile has fewer than r values below it and at least r values up to it. So it is the r-th
    -- smallest value.
    pub percentile-IsRanked :
        (ceil_share : ℕ → ℕ → ℕ) (fmean : List F → F) (x : F) (xs : List F) (p : ℕ)
        → ceil_share p (length (x ∷ xs)) ≤ length (x ∷ xs)
        → (let r = max 1 (ceil_share p (length (x ∷ xs))) in
            let value = percentile fl ceil_share fmean (x ∷ xs) p in
            (length (filter (λ y. lt fl y value) (x ∷ xs)) < r)
            × (r ≤ length (filter (λ y. fl.le y value) (x ∷ xs))))
    unfolding percentile
    percentile-IsRanked ceil_share fmean x xs p h =
        sorted-place (x ∷ xs) (max 1 (ceil_share p (length (x ∷ xs)))) x (omega arith) (omega arith)
