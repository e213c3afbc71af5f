-- ===== src/App.antt =====
-- app/main.py, with what its lifespan starts and stops: the rest of app/services/model_registry.py, the
-- task of app/services/health_refresh.py, the client of app/cache/redis_cache.py; and the routes of
-- app/api/routes_health.py. Unpickling, the estimator's parameters and the pings are parameters.
pub mod Lifespan
pub mod Readiness
mod Examples
use Prim.Native.String
use fast_api_project.Prelude.{
  ℕ, String, Bool, true, false, not, ◌&&◌, ◌||◌, Option, none, some, List, [], ◌∷◌, map, filter,
  str_eq, if◌then◌else◌,
}
use fast_api_project.Exceptions.{Result, ok, raise}
use fast_api_project.Floats.{Floats}
use fast_api_project.Database.{Session}
use fast_api_project.Drift.{Constants}
use fast_api_project.Drift.Monitor.{DriftMonitor, configure}
use fast_api_project.Registry.{Metadata, MetadataFile, ModelGauges, load_bundle}
use fast_api_project.Service.{PredictionService}
use fast_api_project.Writer.{start}
use fast_api_project.Writer.Schedule.{System, stop}
use fast_api_project.Logs.{Logging, shutdown_logging}

-- `get_params` and `set_params` of an estimator; a parameter's value is a number here.
pub record Estimator (P : Type 0) : Type 0 where
  pub get_params : P → List String
  pub set_params : List (String × ℕ) → P → P

-- `name.endswith(suffix)`
unfoldable pub ends_with : (suffix name : String) → Bool
ends_with suffix String.[] = str_eq suffix ""
ends_with suffix (String.◌∷◌ c rest) = str_eq suffix (String.◌∷◌ c rest) || ends_with suffix rest

unfoldable pub counts_jobs : String → Bool
unfolding ends_with
counts_jobs name = str_eq name "n_jobs" || ends_with "__n_jobs" name

abbrev pub with_params : {P : Type 0} → Estimator P → List (String × ℕ) → P → P
with_params e [] pipeline = pipeline
with_params e (param ∷ params) pipeline = e.set_params (param ∷ params) pipeline

unfoldable pub serve_single_threaded : {P : Type 0} → Estimator P → P → P
unfolding counts_jobs
serve_single_threaded e pipeline =
    with_params e (map (λ name. (name, 1)) (filter counts_jobs (e.get_params pipeline))) pipeline

-- The state of a process: `app.state`, and the modules' own objects. `refresher` says whether the task
-- runs, `redis` is the client once it is made, and `engine` whether the pool is open.
pub record Application (P F Row S C : Type 0) : Type 0 where
  pub model_bundle : Option (Metadata F)
  pub model : Option P
  pub model_gauges : Option (ModelGauges F)
  pub monitor : DriftMonitor F
  pub system : System Row S
  pub refresher : Bool
  pub redis : Option C
  pub engine : Bool
  pub logging : Logging

-- `get_redis`, where `made` is what `from_url` makes
unfoldable pub get_redis :
    {P F Row S C : Type 0} → (made : C) → Application P F Row S C → C × Application P F Row S C
get_redis made app = elim app.redis [
  | none ↦ (made, record app { redis = some made })
  | some client ↦ (client, app)
]

abbrev pub close_redis : {P F Row S C : Type 0} → Application P F Row S C → Application P F Row S C
close_redis app = record app { redis = none }

-- `HealthRefresher.start` and `stop`
abbrev pub start_refresher :
    {P F Row S C : Type 0} → Application P F Row S C → Application P F Row S C
start_refresher app = if app.refresher then app else record app { refresher = true }

abbrev pub stop_refresher :
    {P F Row S C : Type 0} → Application P F Row S C → Application P F Row S C
stop_refresher app = if app.refresher then record app { refresher = false } else app

abbrev pub start_writer : {P F Row S C : Type 0} → Application P F Row S C → Application P F Row S C
start_writer app = record app { system = record (app.system) { writer = start app.system.writer } }

-- `get_prediction_service`, where `infer` is the run of a pipeline
unfoldable pub get_prediction_service :
    {P F Row S C Features Price : Type 0}
    → (infer : P → Features → Result Price) → Application P F Row S C
    → PredictionService Features Price
get_prediction_service infer app = record {
  model = elim app.model [ none ↦ none | some pipeline ↦ some (infer pipeline) ];
  model_version = elim app.model_bundle [ none ↦ none | some bundle ↦ bundle.version ];
}

module _ {P F : Type 0} (fl : Floats F) (k : Constants F) (e : Estimator P) (is_zero : F → Bool)
    (runtime : String) {Row S C : Type 0} where
  -- The `try` of the lifespan, on what `joblib.load` gives
  unfoldable pub load_model :
      Result P → MetadataFile F → Application P F Row S C → Application P F Row S C
  unfolding load_bundle configure serve_single_threaded
  load_model (raise why) file app = record app { model_bundle = none; model = none }
  load_model (ok pipeline) file app =
      let loaded = load_bundle is_zero runtime file in
      record app {
        model_bundle = some loaded.0;
        model = some (serve_single_threaded e pipeline);
        model_gauges = some loaded.1;
        monitor = configure fl k loaded.0.training_distribution app.monitor;
      }

  -- `lifespan` up to its `yield`
  unfoldable pub startup :
      Result P → MetadataFile F → Application P F Row S C → Application P F Row S C
  unfolding load_model
  startup loaded file app = start_refresher (start_writer (load_model loaded file app))

-- `lifespan` after its `yield`; `after` is the database as a cancelled flush leaves it
unfoldable pub shutdown :
    {P F Row S C : Type 0}
    → Session Row S
    → (after : S) → Application P F Row S C
    → Application P F Row S C
unfolding stop shutdown_logging
shutdown db after app =
    let quiet = stop_refresher app in
    let drained = record quiet { system = stop db after quiet.system } in
    let closed = record (close_redis drained) { engine = false } in
    record closed { logging = shutdown_logging closed.logging }

-- what /health and /ready answer
pub record Checks : Type 0 where
  pub database : Bool
  pub redis : Bool
  pub model : Bool

pub record Ready : Type 0 where
  pub status : ℕ
  pub ready : Bool
  pub checks : Checks

abbrev pub succeeds : {A : Type 0} → Result A → Bool
succeeds (ok a) = true
succeeds (raise e) = false

abbrev pub is_loaded : {P : Type 0} → Option P → Bool
is_loaded none = false
is_loaded (some pipeline) = true

unfoldable pub health :
    {P F Row S C : Type 0} → Application P F Row S C → String × Application P F Row S C
health app = ("ok", app)

-- `ready`, with how SELECT 1 and PING of a client end
unfoldable pub ready :
    {P F Row S C : Type 0}
    → (made : C) → (select_1 : Result (Unit {0})) → (ping : C → Result (Unit {0}))
    → Application P F Row S C
    → Ready × Application P F Row S C
unfolding get_redis
ready made select_1 ping app =
    let (client, after) = get_redis made app in
    let checks : Checks = record {
      database = succeeds select_1;
      redis = succeeds (ping client);
      model = is_loaded app.model;
    } in
    let ready_now = checks.database && checks.redis && checks.model in
    (record { status = if ready_now then 200 else 503; ready = ready_now; checks = checks }, after)
