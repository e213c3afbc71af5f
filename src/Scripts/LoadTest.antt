-- ===== src/Scripts/LoadTest.antt =====
-- scripts/load_test.py: what is made of the replies, up to the report. The recorded configuration and the
-- printing are left out.
pub mod Session
pub mod Percentile
pub mod Accounts
pub mod Served
use fast_api_project.Prelude.{
  ℕ, zero, suc, ◌+◌, ◌-◌, max, ◌≡◌, String, Bool, true, false, not, ◌&&◌, Option, none, some, List,
  [], ◌∷◌, map, length, get_or, replicate, filter, str_eq, ◌==◌, if◌then◌else◌,
}
use fast_api_project.Floats.{Floats, max_float}
use fast_api_project.Schemas.{CarFeatures}
use fast_api_project.Scripts.{Rng}
use fast_api_project.Scripts.Cars.{build_vector}

-- What the client gets of a request: `httpx.TransportError`, or a response with `cached` of its JSON.
pub data Reply : Type 0 where
  transport_error : Reply
  response : (status : ℕ) → (cached : Option Bool) → Reply

pub record Outcome (F : Type 0) : Type 0 where
  pub elapsed_ms : F
  pub status : ℕ
  pub cached : Bool

abbrev pub cached_or_false : Option Bool → Bool
cached_or_false none = false
cached_or_false (some cached) = cached

-- `fire`, once the client has replied
unfoldable pub fire : {F : Type 0} → (payload : Option (CarFeatures F)) → Reply → F → Outcome F
fire payload transport_error elapsed_ms = record {
  elapsed_ms = elapsed_ms;
  status = 0;
  cached = false;
}
fire none (response status cached) elapsed_ms = record {
  elapsed_ms = elapsed_ms;
  status = status;
  cached = false;
}
fire (some car) (response status cached) elapsed_ms = record {
  elapsed_ms = elapsed_ms;
  status = status;
  cached = (status == 200) && cached_or_false cached;
}

-- `failures[status] = failures.get(status, 0) + 1`
unfoldable pub count_failure : ℕ → List (ℕ × ℕ) → List (ℕ × ℕ)
count_failure status [] = (status, 1) ∷ []
count_failure status ((s, n) ∷ failures) =
    let rest = count_failure status failures in
    if s == status then (s, n + 1) ∷ failures else (s, n) ∷ rest

unfoldable pub failures_from : {F : Type 0} → List (Outcome F) → List (ℕ × ℕ) → List (ℕ × ℕ)
unfolding count_failure
failures_from [] failures = failures
failures_from (o ∷ results) failures =
    failures_from results (if o.status == 200 then failures else count_failure o.status failures)

pub record Figures (F : Type 0) : Type 0 where
  pub mean_ms : F
  pub p50_ms : F
  pub p95_ms : F
  pub p99_ms : F
  pub max_ms : F

-- The figures are missing where nothing was counted.
pub record Summary (F : Type 0) : Type 0 where
  pub count : ℕ
  pub figures : Option (Figures F)

pub record Report (F : Type 0) : Type 0 where
  pub throughput_rps : F
  pub successful : ℕ
  pub failed : ℕ
  pub failures_by_status : List (ℕ × ℕ)
  pub cache_hit_ratio : F
  pub overall : Summary F
  pub cache_miss : Summary F
  pub cache_hit : Summary F

module _ {F : Type 0} (fl : Floats F) where
  unfoldable pub insert_sorted : F → List F → List F
  insert_sorted x [] = x ∷ []
  insert_sorted x (y ∷ ys) =
      let rest = insert_sorted x ys in if fl.le x y then x ∷ y ∷ ys else y ∷ rest

  -- `sorted(values)`
  unfoldable pub sorted : List F → List F
  unfolding insert_sorted
  sorted [] = []
  sorted (x ∷ xs) = insert_sorted x (sorted xs)

  -- `max(latencies)`, from the first
  unfoldable pub largest : F → List F → F
  largest x [] = x
  largest x (y ∷ ys) = largest (max_float fl x y) ys

  -- `ceil_share p n` is `math.ceil(p / 100 * n)`, in floats, and `fmean` that of `statistics`.
  module _ (ceil_share : ℕ → ℕ → ℕ) (fmean : List F → F) where
    unfoldable pub percentile : List F → ℕ → F
    unfolding sorted
    percentile [] p = fl.of_nat 0
    percentile (x ∷ xs) p =
        let values = x ∷ xs in
        let rank = max 1 (ceil_share p (length values)) in get_or (sorted values) (rank - 1) x

    unfoldable pub summarise : List F → Summary F
    unfolding percentile largest
    summarise [] = record { count = 0; figures = none }
    summarise (x ∷ xs) =
        let latencies = x ∷ xs in
        record {
          count = length latencies;
          figures = some (record {
            mean_ms = fl.round (fmean latencies) 2;
            p50_ms = fl.round (percentile latencies 50) 2;
            p95_ms = fl.round (percentile latencies 95) 2;
            p99_ms = fl.round (percentile latencies 99) 2;
            max_ms = fl.round (largest x xs) 2;
          });
        }

    -- The tail of `main`, on the results
    unfoldable pub report_of : List (Outcome F) → (wall_seconds : F) → Report F
    unfolding failures_from summarise
    report_of results wall_seconds =
        let succeeded = filter (λ o. o.status == 200) results in
        let miss_latencies = map (λ o. o.elapsed_ms) (filter (λ o. not o.cached) succeeded) in
        let hit_latencies = map (λ o. o.elapsed_ms) (filter (λ o. o.cached) succeeded) in
        record {
          throughput_rps = fl.round (fl.div (fl.of_nat (length results)) wall_seconds) 1;
          successful = length succeeded;
          failed = length results - length succeeded;
          failures_by_status = failures_from results [];
          cache_hit_ratio =
              if length succeeded == 0
              then fl.of_nat 0
              else fl.round (fl.ratio (length hit_latencies) (length succeeded)) 3;
          overall = summarise (map (λ o. o.elapsed_ms) succeeded);
          cache_miss = summarise miss_latencies;
          cache_hit = summarise hit_latencies;
        }
