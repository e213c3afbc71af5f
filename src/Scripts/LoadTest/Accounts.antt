-- ===== src/Scripts/LoadTest/Accounts.antt =====
-- The report of scripts/load_test.py accounts for every request once.
use fast_api_project.Prelude.{
  ℕ, zero, suc, ◌+◌, ◌≡◌, refl, ◌∙◌, ap, ◌<◌, str_eq, length-replicate, Bool, not, Option, none,
  some, List, [], ◌∷◌, map, length, length-map, filter, length-filter-le, ◌==◌, Bool-cases, inl,
  inr, arith,
}
use fast_api_project.Floats.{Floats}
use fast_api_project.Scripts.LoadTest.{
  Outcome, count_failure, failures_from, Report, summarise, report_of,
}
use fast_api_project.Schemas.{CarFeatures}
use fast_api_project.Scripts.{Rng}
use fast_api_project.Scripts.LoadTest.Session.{
  Client, Config, Run, finished, exits, vectors, draws, draw_from, build_payloads, fire_all,
}

unfoldable pub counted : List (ℕ × ℕ) → ℕ
counted [] = 0
counted ((status, n) ∷ failures) = n + counted failures

counted-count_failure :
    (status : ℕ) (failures : List (ℕ × ℕ))
    → counted (count_failure status failures) ≡ counted failures + 1
unfolding counted count_failure
counted-count_failure status [] = refl
counted-count_failure status ((s, n) ∷ failures) =
    ground (arith, counted-count_failure status failures)

module _ {F : Type 0} where
  counted-failures_from :
      (results : List (Outcome F)) (failures : List (ℕ × ℕ))
      → counted (failures_from results failures) + length (filter (λ o. o.status == 200) results)
        ≡ counted failures + length results
  unfolding failures_from
  counted-failures_from [] failures = refl
  counted-failures_from (o ∷ results) failures = elim (Bool-cases (o.status == 200)) [
    | inl good ↦ rw good (omega (arith, counted-failures_from results failures))
    | inr bad ↦ rw bad (
        omega (
          arith,
          counted-failures_from results (count_failure o.status failures),
          counted-count_failure o.status failures,
        ))
  ]

  length-filter-split :
      (p : Outcome F → Bool) (results : List (Outcome F))
      → length (filter p results) + length (filter (λ o. not (p o)) results) ≡ length results
  length-filter-split p [] = refl
  length-filter-split p (o ∷ results) = ground (arith, length-filter-split p results)

  -- Every request is in one place of the report: the successful and the failed are all of them, the
  -- failures by status are the failed, and the cache hits and misses are the successful.
  unfoldable pub IsAccounted : ℕ → Report F → Type 0
  unfolding counted
  IsAccounted total report =
      (report.successful + report.failed ≡ total)
      × (counted report.failures_by_status ≡ report.failed)
      × (report.cache_hit.count + report.cache_miss.count ≡ report.successful)
      × (report.overall.count ≡ report.successful)

  module _ (fl : Floats F) (ceil_share : ℕ → ℕ → ℕ) (fmean : List F → F) where
    summarise-count :
        (latencies : List F) → (summarise fl ceil_share fmean latencies).count ≡ length latencies
    unfolding summarise
    summarise-count [] = refl
    summarise-count (x ∷ xs) = refl

    pub report_of-IsAccounted :
        (results : List (Outcome F)) (wall_seconds : F)
        → IsAccounted (length results) (report_of fl ceil_share fmean results wall_seconds)
    unfolding IsAccounted report_of counted
    report_of-IsAccounted results wall_seconds =
        let succeeded = filter (λ o. o.status == 200) results in
        let ms : List (Outcome F) → List F = map (λ o. o.elapsed_ms) in
        let hits = filter (λ o. o.cached) succeeded in
        let misses = filter (λ o. not o.cached) succeeded in
        let timed : (os : List (Outcome F))
            → (summarise fl ceil_share fmean (ms os)).count ≡ length os =
          λ os. summarise-count (ms os) ∙ length-map (λ o. o.elapsed_ms) os in
        let most = length-filter-le (λ o. o.status == 200) results in
        let sum = counted-failures_from results [] in
        let split = length-filter-split (λ o. o.cached) succeeded in
        (
          omega (arith, most),
          omega (arith, most, sum),
          omega (arith, timed hits, timed misses, split),
          timed succeeded,
        )

module _ {F R : Type 0} (fl : Floats F) (rng : Rng F R) where
  length-vectors : (n : ℕ) (r : R) → length (vectors fl rng n r).0 ≡ n
  unfolding vectors
  length-vectors zero r = refl
  length-vectors (suc n) r = ap suc (length-vectors n _)

  length-draws :
      (first : CarFeatures F) (pool : List (CarFeatures F)) (n : ℕ) (r : R)
      → length (draws fl rng first pool n r) ≡ n
  unfolding draws
  length-draws first pool zero r = refl
  length-draws first pool (suc n) r = ap suc (length-draws first pool n _)

  length-draw_from :
      (pool : List (CarFeatures F)) (n : ℕ) (r : R)
      → 0 < length pool
      → length (draw_from fl rng pool n r) ≡ n
  length-draw_from [] n r h = absurd (omega arith)
  length-draw_from (first ∷ pool) n r h = length-draws first (first ∷ pool) n r

  pub length-build_payloads :
      (config : Config) (r : R) → length (build_payloads fl rng config r) ≡ config.total_requests
  unfolding build_payloads
  length-build_payloads config r = elim (Bool-cases (str_eq config.target "health")) [
    | inl health ↦ rw health (length-replicate config.total_requests none)
    | inr predict ↦ elim (Bool-cases (config.unique_vectors == 0)) [
      | inl fresh ↦ rw (predict, fresh) (length-map some _ ∙ length-vectors config.total_requests r)
      | inr pooled ↦
          let pool = vectors fl rng config.unique_vectors r in
          let some_car : 0 < length pool.0 =
            ground (arith, pooled, length-vectors config.unique_vectors r) in
          rw (predict, pooled)
            (length-map some _ ∙ length-draw_from pool.0 config.total_requests pool.1 some_car)
    ]
  ]

pub length-fire_all :
    {F T S : Type 0} (client : Client F T S) (token : Option T)
    (payloads : List (Option (CarFeatures F))) (s : S)
    → length (fire_all client token payloads s).0 ≡ length payloads
unfolding fire_all
length-fire_all client token [] s = refl
length-fire_all client token (payload ∷ payloads) s =
    ap suc (length-fire_all client token payloads _)

module _ {F R T S : Type 0} (fl : Floats F) (rng : Rng F R) (client : Client F T S)
    (ceil_share : ℕ → ℕ → ℕ) (fmean : List F → F) (wall_seconds : F) where
  -- what a run may end with
  abbrev pub Accounted : ℕ → Run (Report F) → Type 0
  Accounted total (finished report) = IsAccounted total report
  Accounted total (exits why) = Unit
