-- ===== src/Scripts/Benchmarks.antt =====
-- scripts/benchmark_table.py: the runs of a directory, grouped by their number of clients. A result is what
-- is read of its file, with `none` for a figure that is missing or no number. The printing is left out.
pub mod Totals
use fast_api_project.Prelude.{
  ℕ, suc, ◌+◌, ◌<◌, ◌≡◌, refl, ap, ◌∙◌, Bool, true, false, Option, none, some, List, [], ◌∷◌, ◌++◌,
  map, length, length-append, All, ltb, ◌==◌, ==_iff, if◌then◌else◌, Bool-cases, inl, inr, arith,
  tests,
}

pub record Result (F : Type 0) : Type 0 where
  pub concurrency : ℕ
  pub throughput_rps : Option F
  pub p50_ms : Option F
  pub p95_ms : Option F
  pub p99_ms : Option F
  pub cache_hit_ratio : Option F
  pub failed : ℕ

-- A row of the table; a figure is NaN, `none`, where no run has it.
pub record Row (F : Type 0) : Type 0 where
  pub runs : ℕ
  pub rps : Option F
  pub p50 : Option F
  pub p95 : Option F
  pub p99 : Option F
  pub hit_ratio : Option F
  pub failed : ℕ

abbrev pub Group : Type 0 → Type 0
Group F = ℕ × List (Result F)

abbrev pub total_failed : {F : Type 0} → List (Result F) → ℕ
total_failed [] = 0
total_failed (r ∷ results) = r.failed + total_failed results

module _ {F : Type 0} where
  abbrev pub values_of : (Result F → Option F) → List (Result F) → List F
  values_of figure [] = []
  values_of figure (r ∷ results) = elim (figure r) [
    | none ↦ values_of figure results
    | some x ↦ x ∷ values_of figure results
  ]

  abbrev pub median_or_nan : (median : List F → F) → List F → Option F
  median_or_nan median [] = none
  median_or_nan median (x ∷ xs) = some (median (x ∷ xs))

  -- `median_of`, where `median` is that of `statistics`
  abbrev pub median_of : (median : List F → F) → (Result F → Option F) → List (Result F) → Option F
  median_of median figure results = median_or_nan median (values_of figure results)

  -- `runs[concurrency].append(result)`
  unfoldable pub append_run : Result F → List (Group F) → List (Group F)
  append_run r [] = (r.concurrency, r ∷ []) ∷ []
  append_run r ((c, results) ∷ groups) =
      let rest = append_run r groups in
      if c == r.concurrency then (c, results ++ r ∷ []) ∷ groups else (c, results) ∷ rest

  unfoldable pub grouped : List (Result F) → List (Group F) → List (Group F)
  unfolding append_run
  grouped [] groups = groups
  grouped (r ∷ results) groups = grouped results (append_run r groups)

  -- `sorted(runs.items())`; the keys differ, so the lists are never compared.
  unfoldable pub insert_group : Group F → List (Group F) → List (Group F)
  insert_group g [] = g ∷ []
  insert_group g (h ∷ groups) =
      let rest = insert_group g groups in if ltb h.0 g.0 then h ∷ rest else g ∷ h ∷ groups

  unfoldable pub sorted_groups : List (Group F) → List (Group F)
  unfolding insert_group
  sorted_groups [] = []
  sorted_groups (g ∷ groups) = insert_group g (sorted_groups groups)

  abbrev pub row_of : (median : List F → F) → Group F → ℕ × Row F
  row_of median (concurrency, results) = (
    concurrency,
    record {
      runs = length results;
      rps = median_of median (λ r. r.throughput_rps) results;
      p50 = median_of median (λ r. r.p50_ms) results;
      p95 = median_of median (λ r. r.p95_ms) results;
      p99 = median_of median (λ r. r.p99_ms) results;
      hit_ratio = median_of median (λ r. r.cache_hit_ratio) results;
      failed = total_failed results;
    },
  )

  -- `summarise`, on the results in the order of their files
  unfoldable pub summarise : (median : List F → F) → List (Result F) → List (ℕ × Row F)
  unfolding grouped sorted_groups
  summarise median results = map (row_of median) (sorted_groups (grouped results []))
