-- ===== src/Drift/Report/Severity.antt =====
-- The overall status of a report of app/services/drift.py against those of its features.
use fast_api_project.Prelude.{
  ℕ, ◌≤◌, ◌≡◌, String, true, false, ◌&&◌, Option, List, [], ◌∷◌, map, All, leb, if◌then◌else◌,
  arith,
}
use fast_api_project.Floats.{Floats, max_float, IsOrdered}
use fast_api_project.Drift.{Constants, Status, classify}
use fast_api_project.Drift.Report.{
  is_some, non_empty, sort_desc, max_from, worst_of, feature_drift, report,
}
use fast_api_project.Drift.Report.Order.{insert_desc-All}

abbrev pub severity : Status → ℕ
severity Status.unknown = 0
severity Status.stable = 1
severity Status.moderate = 2
severity Status.significant = 3

module _ {F : Type 0} (fl : Floats F) (k : Constants F) where
  classify_mono :
      (x y : F)
      → IsOrdered fl
      → fl.le x y ≡ true
      → severity (classify fl k x) ≤ severity (classify fl k y)
  unfolding classify
  classify_mono x y ordered h =
      ground (arith, ordered.le_trans k.stable x y, ordered.le_trans k.significant x y)

  max_from-All :
      (es : List (String × F)) (best : F)
      → IsOrdered fl
      → (fl.le best (max_from fl k best es) ≡ true)
        × All (λ e. fl.le e.1 (max_from fl k best es) ≡ true) es
  unfolding max_from
  max_from-All [] best ordered = (ground (arith, ordered.le_total best best), tt)
  max_from-All (e ∷ es) best ordered =
      let top = max_float fl best e.1 in
      let (b, a) = max_from-All es top ordered in
      let left : fl.le best top ≡ true =
        ground (arith, ordered.le_total best e.1, ordered.le_total best best) in
      let right : fl.le e.1 top ≡ true =
        ground (arith, ordered.le_total best e.1, ordered.le_total e.1 e.1) in
      (ordered.le_trans _ _ _ left b, (ordered.le_trans _ _ _ right b, a))

  worst_of-All :
      (es : List (String × F)) → IsOrdered fl → All (λ e. fl.le e.1 (worst_of fl k es) ≡ true) es
  unfolding worst_of
  worst_of-All [] ordered = tt
  worst_of-All (e ∷ es) ordered = max_from-All es e.1 ordered

  sort_desc-All :
      (y : F) (es : List (String × F))
      → All (λ e. fl.le e.1 y ≡ true) es
      → All (λ e. fl.le e.1 y ≡ true) (sort_desc fl k es)
  unfolding sort_desc
  sort_desc-All y [] a = tt
  sort_desc-All y (e ∷ es) (here, a) = insert_desc-All fl k y e _ here (sort_desc-All y es a)

  listed_below :
      (y : F) (es : List (String × F))
      → IsOrdered fl
      → All (λ e. fl.le e.1 y ≡ true) es
      → All (λ f. severity f.status ≤ severity (classify fl k y)) (map (feature_drift fl k) es)
  unfolding feature_drift
  listed_below y [] ordered a = tt
  listed_below y (e ∷ es) ordered (here, a) =
      (classify_mono e.1 y ordered here, listed_below y es ordered a)

  -- what a report shows of some scores, as its status
  shown_below :
      (shown : List (String × F))
      → IsOrdered fl
      → All
          (λ f.
            severity f.status
            ≤ severity
                (if non_empty shown then classify fl k (worst_of fl k shown) else Status.unknown))
          (map (feature_drift fl k) (sort_desc fl k shown))
  unfolding sort_desc
  shown_below [] ordered = tt
  shown_below (e ∷ es) ordered =
      listed_below _ _ ordered (sort_desc-All _ (e ∷ es) (worst_of-All (e ∷ es) ordered))

  -- For ordered floats, no feature of a report is worse than the status of the whole report; and a report that is not
  -- ready, for want of a reference, of samples or of scores, is unknown and lists no feature;
  -- and a ready one has the minimum of samples at least.
  pub report-status :
      {R : Type 0} (reference : Option R) (scores : List (String × F)) (samples min_samples : ℕ)
      → IsOrdered fl
      → (let r = report fl k reference scores samples min_samples in
          All (λ f. severity f.status ≤ severity r.status) r.features
          × (r.ready ≡ false → (r.status ≡ Status.unknown) × (r.features ≡ []))
          × (r.ready ≡ true → min_samples ≤ samples))
  unfolding report sort_desc
  report-status reference scores samples min_samples ordered =
      let ready = is_some reference && (leb min_samples samples && non_empty scores) in
      (shown_below (if ready then scores else []) ordered, λ h. (rw h, rw h), λ h. ground arith)
