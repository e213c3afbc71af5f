-- ===== src/Scripts/Benchmarks/Totals.antt =====
-- The table of scripts/benchmark_table.py has every run.
use fast_api_project.Prelude.{
  ℕ, ◌+◌, ◌≡◌, refl, List, [], ◌∷◌, ◌++◌, map, length, length-append, ltb, ◌==◌, Bool-cases, inl,
  inr, arith,
}
use fast_api_project.Scripts.Benchmarks.{
  Result, Row, Group, total_failed, append_run, grouped, insert_group, sorted_groups, row_of,
  summarise,
}

module _ {F : Type 0} where
  -- the runs and the failures of a table
  abbrev pub table_runs : List (ℕ × Row F) → ℕ
  table_runs [] = 0
  table_runs ((c, row) ∷ rows) = row.runs + table_runs rows

  abbrev pub table_failed : List (ℕ × Row F) → ℕ
  table_failed [] = 0
  table_failed ((c, row) ∷ rows) = row.failed + table_failed rows

  module _ (median : List F → F) where
    abbrev runs_in : List (Group F) → ℕ
    runs_in groups = table_runs (map (row_of median) groups)

    abbrev failed_in : List (Group F) → ℕ
    failed_in groups = table_failed (map (row_of median) groups)

    total_failed-append :
        (xs ys : List (Result F)) → total_failed (xs ++ ys) ≡ total_failed xs + total_failed ys
    total_failed-append [] ys = omega arith
    total_failed-append (x ∷ xs) ys = omega (arith, total_failed-append xs ys)

    append_run-adds :
        (r : Result F) (groups : List (Group F))
        → (runs_in (append_run r groups) ≡ runs_in groups + 1)
          × (failed_in (append_run r groups) ≡ failed_in groups + r.failed)
    unfolding append_run
    append_run-adds r [] = (refl, omega arith)
    append_run-adds r ((c, results) ∷ groups) =
        let (n, m) = append_run-adds r groups in
        elim (Bool-cases (c == r.concurrency)) [
          | inl same ↦ rw same (
            omega (arith, length-append results (r ∷ [])),
            omega (arith, total_failed-append results (r ∷ [])),
          )
          | inr other ↦ rw other (omega (arith, n), omega (arith, m))
        ]

    grouped-adds :
        (results : List (Result F)) (groups : List (Group F))
        → (runs_in (grouped results groups) ≡ runs_in groups + length results)
          × (failed_in (grouped results groups) ≡ failed_in groups + total_failed results)
    unfolding grouped
    grouped-adds [] groups = (omega arith, omega arith)
    grouped-adds (r ∷ results) groups =
        let (n, m) = grouped-adds results (append_run r groups) in
        let (n', m') = append_run-adds r groups in (omega (arith, n, n'), omega (arith, m, m'))

    insert_group-adds :
        (g : Group F) (groups : List (Group F))
        → (runs_in (insert_group g groups) ≡ runs_in (g ∷ groups))
          × (failed_in (insert_group g groups) ≡ failed_in (g ∷ groups))
    unfolding insert_group
    insert_group-adds g [] = (refl, refl)
    insert_group-adds g (h ∷ groups) =
        let (n, m) = insert_group-adds g groups in
        elim (Bool-cases (ltb h.0 g.0)) [
          | inl before ↦ rw before (omega (arith, n), omega (arith, m))
          | inr place ↦ rw place (refl, refl)
        ]

    sorted_groups-adds :
        (groups : List (Group F))
        → (runs_in (sorted_groups groups) ≡ runs_in groups)
          × (failed_in (sorted_groups groups) ≡ failed_in groups)
    unfolding sorted_groups
    sorted_groups-adds [] = (refl, refl)
    sorted_groups-adds (g ∷ groups) =
        let (n, m) = sorted_groups-adds groups in
        let (n', m') = insert_group-adds g (sorted_groups groups) in
        (omega (arith, n, n'), omega (arith, m, m'))

    -- No run is lost and none is counted twice: the runs of the rows are as many as the files, and their
    -- failures are those of all files.
    pub summarise-adds :
        (results : List (Result F))
        → (table_runs (summarise median results) ≡ length results)
          × (table_failed (summarise median results) ≡ total_failed results)
    unfolding summarise
    summarise-adds results =
        let (n, m) = grouped-adds results [] in
        let (n', m') = sorted_groups-adds (grouped results []) in
        (omega (arith, n, n'), omega (arith, m, m'))
