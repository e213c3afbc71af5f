-- ===== src/App/Lifespan.antt =====
-- A process of app/main.py from its start to its end.
use fast_api_project.Prelude.{
  ℕ, ◌+◌, ◌≡◌, refl, String, Bool, true, false, Option, none, some, [], length, Bool-cases, inl,
  inr,
}
use fast_api_project.Exceptions.{Result, ok, raise}
use fast_api_project.Floats.{Floats}
use fast_api_project.Database.{Session}
use fast_api_project.Drift.{Constants}
use fast_api_project.Drift.Scores.{Reference}
use fast_api_project.Drift.Monitor.{DriftMonitor, configure}
use fast_api_project.Registry.{MetadataFile, read_metadata, load_bundle}
use fast_api_project.Service.{PredictionService}
use fast_api_project.Writer.{Writer, start}
use fast_api_project.Writer.Accounting.{counted}
use fast_api_project.Writer.Schedule.{
  System, boot, Step, Reach, here, next, Balanced, Reach-Balanced, stop-counted,
}
use fast_api_project.Logs.{shutdown_logging}
use fast_api_project.App.{
  Estimator, Application, start_writer, start_refresher, get_prediction_service,
  serve_single_threaded, load_model, startup, shutdown,
}

-- What the handlers predict with: the unpickled pipeline and the version of its metadata, or nothing.
unfoldable pub served :
    {P F Features Price : Type 0}
    → Estimator P
    → (infer : P → Features → Result Price) → Result P
    → MetadataFile F
    → PredictionService Features Price
served e infer (raise why) file = record { model = none; model_version = none }
served e infer (ok pipeline) file = record {
  model = some (infer (serve_single_threaded e pipeline));
  model_version = (read_metadata file).version;
}

abbrev pub reference_after :
    {P F : Type 0} → Result P → MetadataFile F → DriftMonitor F → Option (Reference F)
reference_after (raise why) file monitor = monitor.reference
reference_after (ok pipeline) file monitor = (read_metadata file).training_distribution

start-runs : {Row : Type 0} (w : Writer Row) → start w ≡ record w { task = true }
unfolding start
start-runs w = elim (Bool-cases w.task) [ inl running ↦ rw running | inr idle ↦ rw idle ]

start_refresher-runs :
    {P F Row S C : Type 0} (app : Application P F Row S C)
    → start_refresher app ≡ record app { refresher = true }
start_refresher-runs app = elim (Bool-cases app.refresher) [
  | inl running ↦ rw running
  | inr idle ↦ rw idle
]

module _ {P F : Type 0} (fl : Floats F) (k : Constants F) (e : Estimator P) (is_zero : F → Bool)
    (runtime : String) {Row S C Features Price : Type 0} (infer : P → Features → Result Price) where
  -- what the start of a process must give
  abbrev pub IsServing :
      Result P → MetadataFile F → Application P F Row S C → Application P F Row S C → Type 0
  IsServing loaded file before up =
      (up.system
        ≡ record (before.system) { writer = record (before.system.writer) { task = true } })
      × (up.refresher ≡ true)
      × (get_prediction_service infer up ≡ served e infer loaded file)
      × (up.monitor.reference ≡ reference_after loaded file before.monitor)

  pub startup-IsServing :
      (loaded : Result P) (file : MetadataFile F) (app : Application P F Row S C)
      → IsServing loaded file app (startup fl k e is_zero runtime loaded file app)
  unfolding startup load_model get_prediction_service served load_bundle configure
  startup-IsServing (raise why) file app =
      rw
        (
          start_refresher-runs (start_writer (record app { model_bundle = none; model = none })),
          start-runs app.system.writer,
        )
        (refl, refl, refl, refl)
  startup-IsServing (ok pipeline) file app =
      rw
        (
          start_refresher-runs
              (start_writer (load_model fl k e is_zero runtime (ok pipeline) file app)),
          start-runs app.system.writer,
        )
        (refl, refl, refl, refl)

Reach-trans :
    {Row S : Type 0} (db : Session Row S) {σ τ υ : System Row S}
    → Reach db σ τ
    → Reach db τ υ
    → Reach db σ υ
Reach-trans db r here = r
Reach-trans db r (next s st) = next (Reach-trans db r s) st

module _ {P F : Type 0} (fl : Floats F) (k : Constants F) (e : Estimator P) (is_zero : F → Bool)
    (runtime : String) {Row S C : Type 0} (db : Session Row S) where
  startup-Reach :
      (loaded : Result P) (file : MetadataFile F) (app : Application P F Row S C)
      → Reach db app.system (startup fl k e is_zero runtime loaded file app).system
  startup-Reach loaded file app =
      let up =
        startup-IsServing fl k e is_zero runtime {Features = P} {Price = P} (λ p _. ok p) loaded
          file app in
      rw (up.0, ← start-runs app.system.writer) (next here (Step.starting app.system))

  -- what a shutdown leaves behind, where `system` is the writer's state before it
  abbrev pub IsDown : System Row S → Application P F Row S C → Type 0
  IsDown system down =
      (down.system.writer.queue ≡ [])
      × (down.system.offered
          ≡ counted down.system.writer + length system.uncounted + length system.in_flight)
      × (down.refresher ≡ false)
      × (down.redis ≡ none)
      × (down.engine ≡ false)
      × (down.logging.listener ≡ none)

  shutdown-IsDown :
      (app : Application P F Row S C) (after : S)
      → Balanced db app.system
      → app.system.writer.task ≡ true
      → IsDown app.system (shutdown db after app)
  unfolding shutdown shutdown_logging
  shutdown-IsDown app after balanced running =
      let (empty, counted) = stop-counted db after app.system running balanced in
      elim (Bool-cases app.refresher) [
        | inl refreshing ↦ rw refreshing (empty, counted, refl, refl, refl, refl)
        | inr still ↦ rw still (empty, counted, refl, refl, refl, refl)
      ]

  -- A process starts, whatever unpickling does; then requests, rounds of the consumer and the rest of the
  -- process go on in any order, and a shutdown finds the writer running. Afterwards the queue is empty,
  -- every row ever offered is counted as written or dropped but for the batches of cancelled flushes, and
  -- neither the refresher, the Redis client, the database pool nor the log listener is left.
  pub lifespan-IsDown :
      (loaded : Result P) (file : MetadataFile F) (app during : Application P F Row S C)
      (batch_size max_queue : ℕ) (s after : S)
      → app.system ≡ boot batch_size max_queue s
      → Reach db (startup fl k e is_zero runtime loaded file app).system during.system
      → during.system.writer.task ≡ true
      → IsDown during.system (shutdown db after during)
  lifespan-IsDown loaded file app during batch_size max_queue s after fresh life running =
      let start : Reach db (boot batch_size max_queue s)
          (startup fl k e is_zero runtime loaded file app).system =
        rw (← fresh) (startup-Reach loaded file app) in
      shutdown-IsDown during after
        (Reach-Balanced db batch_size max_queue s (Reach-trans db start life)) running
