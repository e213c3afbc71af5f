-- ===== src/Scripts/Cars/Draws.antt =====
-- What scripts/load_test.py and scripts/drift_demo.py draw lies within its bounds.
use fast_api_project.Prelude.{
  ℕ, zero, suc, ◌≤◌, ◌<◌, ◌≡◌, String, Bool, true, false, ◌&&◌, List, [], ◌∷◌, length, get_or, all,
  leb, eq_refl, arith,
}
use fast_api_project.Floats.{Floats}
use fast_api_project.Schemas.{one_of, positive_to, within}
use fast_api_project.Scripts.{Rng, IsDocumented, choice, tenths}

pub both : (a b : Bool) → a ≡ true → b ≡ true → (a && b) ≡ true
both a b h k = rw (h, k)

le→leb : (a b : ℕ) → a ≤ b → leb a b ≡ true
le→leb a b h = ground arith

one_of-get_or :
    (values : List String) (i : ℕ) (otherwise : String)
    → i < length values
    → one_of (get_or values i otherwise) values ≡ true
unfolding one_of
one_of-get_or [] i otherwise h = absurd (omega arith)
one_of-get_or (v ∷ values) zero otherwise h = rw (eq_refl v)
one_of-get_or (v ∷ values) (suc i) otherwise h =
    ground (arith, one_of-get_or values i otherwise (omega arith))

pub all-get_or :
    {A : Type 0} (p : A → Bool) (values : List A) (i : ℕ) (otherwise : A)
    → i < length values
    → all p values ≡ true
    → p (get_or values i otherwise) ≡ true
all-get_or p [] i otherwise h a = absurd (omega arith)
all-get_or p (v ∷ values) zero otherwise h a = ground arith
all-get_or p (v ∷ values) (suc i) otherwise h a =
    all-get_or p values i otherwise (omega arith) (ground arith)

module _ {F S : Type 0} (fl : Floats F) (rng : Rng F S) (doc : IsDocumented fl rng) where
  of_nat-positive_to : (high n : ℕ) → 1 ≤ n → n ≤ high → positive_to fl high (fl.of_nat n) ≡ true
  of_nat-positive_to high n h k = ground (arith, doc.of_nat_lt 0 n, doc.of_nat_le n high)

  pub of_nat-within :
      (low high n : ℕ) → low ≤ n → n ≤ high → within fl low high (fl.of_nat n) ≡ true
  of_nat-within low high n h k = ground (arith, doc.of_nat_le low n, doc.of_nat_le n high)

  tenths-ge :
      (bound low high : ℕ) (s : S)
      → bound ≤ low
      → low ≤ high
      → fl.le (fl.of_nat bound) (tenths fl rng low high s).0 ≡ true
  tenths-ge bound low high s h k =
      doc.ordered.le_trans _ _ _ (doc.of_nat_le bound low h)
        (doc.round_ge low _ (doc.uniform_ge low high s k))

  tenths-le :
      (low high bound : ℕ) (s : S)
      → low ≤ high
      → high ≤ bound
      → fl.le (tenths fl rng low high s).0 (fl.of_nat bound) ≡ true
  tenths-le low high bound s k h =
      doc.ordered.le_trans _ _ _ (doc.round_le high _ (doc.uniform_le low high s k))
        (doc.of_nat_le high bound h)

  pub tenths-within :
      (least low high most : ℕ) (s : S)
      → least ≤ low
      → low ≤ high
      → high ≤ most
      → within fl least most (tenths fl rng low high s).0 ≡ true
  tenths-within least low high most s h k l =
      both _ _ (tenths-ge least low high s h k) (tenths-le low high most s k l)

  pub tenths-positive_to :
      (low high most : ℕ) (s : S)
      → 1 ≤ low
      → low ≤ high
      → high ≤ most
      → positive_to fl most (tenths fl rng low high s).0 ≡ true
  tenths-positive_to low high most s h k l =
      let x = (tenths fl rng low high s).0 in
      let above : fl.le x (fl.of_nat 0) ≡ false = ground (
        arith,
        doc.ordered.le_trans (fl.of_nat low) x (fl.of_nat 0),
        tenths-ge low low high s (omega arith) k,
        doc.of_nat_lt 0 low,
      ) in
      both _ _ (rw above) (tenths-le low high most s k l)

  pub between-within :
      (least low high most : ℕ) (s : S)
      → least ≤ low
      → low ≤ high
      → high ≤ most
      → (leb least (rng.between low high s).0 && leb (rng.between low high s).0 most) ≡ true
  between-within least low high most s h k l =
      ground (arith, doc.between_ge low high s, doc.between_le low high s)

  pub between-positive_to :
      (low high most : ℕ) (s : S)
      → 1 ≤ low
      → low ≤ high
      → high ≤ most
      → positive_to fl most (fl.of_nat (rng.between low high s).0) ≡ true
  between-positive_to low high most s h k l =
      let above = doc.between_ge low high s k in
      let below = doc.between_le low high s k in
      of_nat-positive_to most (rng.between low high s).0 (omega arith) (omega arith)

  pub choice-one_of :
      (values : List String) (s : S)
      → 0 < length values
      → one_of (choice fl rng "" values s).0 values ≡ true
  choice-one_of values s h = one_of-get_or values _ "" (doc.below_lt (length values) s h)

  pub choice-positive_to :
      (values : List ℕ) (most : ℕ) (s : S)
      → 0 < length values
      → all (λ n. leb 1 n && leb n most) values ≡ true
      → positive_to fl most (fl.of_nat (choice fl rng 0 values s).0) ≡ true
  choice-positive_to values most s h a =
      let n = (choice fl rng 0 values s).0 in
      let good =
        all-get_or (λ n. leb 1 n && leb n most) values _ 0 (doc.below_lt (length values) s h) a in
      of_nat-positive_to most n (ground (arith, good)) (ground (arith, good))

  pub choice-within :
      (values : List ℕ) (least most : ℕ) (s : S)
      → 0 < length values
      → all (λ n. leb least n && leb n most) values ≡ true
      → within fl least most (fl.of_nat (choice fl rng 0 values s).0) ≡ true
  choice-within values least most s h a =
      let n = (choice fl rng 0 values s).0 in
      let good =
        all-get_or (λ n. leb least n && leb n most) values _ 0 (doc.below_lt (length values) s h)
          a in
      of_nat-within least most n (ground (arith, good)) (ground (arith, good))
