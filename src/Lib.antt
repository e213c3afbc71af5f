-- ===== src/Lib.antt =====
-- Car price prediction API: a FastAPI service that predicts the price of a car with a fitted
-- pipeline, caches predictions in Redis, limits requests per client, logs every prediction to
-- PostgreSQL in batches, and watches its live inputs for drift.
--
-- The parts, with the code that each models and the files that do it:
--   Exceptions  app/core/exceptions.py: the errors shown to a client, and the handlers that turn
--               any exception into a response. `Result` is what a call returns or raises.
--   Writer      app/services/prediction_writer.py, with `log_many` of app/db/repositories.py: the
--               bounded queue, the consumer, the flush with its row-by-row retry, and the counters.
--               Writer/Schedule has the life of the consumer as a step relation.
--   Cache       app/cache/redis_cache.py: keys, reads and writes, and the throttled failure log.
--   Service     app/services/model_service.py: a prediction from the cache or else from the model, also
--               where several versions share one Redis (Service/Fleet), and the row of the frame (Service/Frame).
--   Tokens      app/core/security.py and app/core/dependencies.py: access tokens, the operator's
--               key, and the caller's identity.
--   RateLimit   app/core/rate_limit.py: the client that a request counts against, and its window.
--   Drift       app/services/drift.py: the index, the histograms, the scores, the report, and the
--               monitor that refreshes it (Drift/Monitor).
--   Repository  app/db/models.py and app/db/repositories.py: statements as data, and the queries.
--   Users       `User`, `UserRepository` and `get_current_user` of app/db and app/core.
--   Auth        app/services/auth_service.py: registration and login.
--   Schemas     app/schemas: what a request may hold, and the columns that it goes to.
--   Health      app/services/health_refresh.py and the drift handler of app/api/routes_model.py.
--   Config      app/core/config.py: the settings as an environment gives them, the rewriting of the
--               database URL, and the placeholder check.
--   Registry    app/services/model_registry.py and the other handlers of app/api/routes_model.py.
--   Logs        app/core/logging_config.py and app/middleware/logging_middleware.py: the filter, the JSON
--               formatter, the set-up, and the access log with its correlation id (Logs/Access).
--   App         app/main.py: what a process starts and stops, with the refresher's task, the Redis client
--               and the switch of the pipeline to one thread; and app/api/routes_health.py.
--   Training    training/train_model.py, sweep.py and train_utils.py: the training distribution, the version, the
--               metadata, and the choice of the forest's size (Training/Sweep).
--   Migrations  alembic/versions: the statements of each upgrade and downgrade, and the schema of
--               app/db/models.py that they lead to.
--   Scripts     scripts/load_test.py, the run of scripts/seed_predictions.py, and the run
--               of scripts/drift_demo.py: what they make up and send, and what they report; and
--               the table of scripts/benchmark_table.py (Scripts/Benchmarks).
--   Routes      app/api: the handlers that compose the parts above, and a prediction on its way through
--               them (Routes/Journey).
-- Prelude holds the names, list operations and case splits that all of them share, and Texts the
-- parts of a key between its colons. Each part
-- has its theorems in child modules, and modules Examples that run it.
--
-- A function of the code is a definition of the same name, a method takes its object as a record
-- and returns the new one, and an exception is a value. Code outside the repository is a
-- parameter: Database, Repository and Users have the calls on a session, Redis the commands, Tokens the
-- JWT and password libraries, Floats the arithmetic, Cache the encodings, and the model is a
-- function. Their documented behaviour is a record of laws, which the theorems that need it take
-- as a hypothesis and which an in-memory instance fulfils in an Examples module. Exec runs a
-- handler: it passes a state on and stops at the first exception. Routes/World is the state that
-- the handlers share, and its guards run before the handler, in the order of FastAPI.
--
-- Times are natural numbers, in milliseconds for Redis and in seconds for tokens. Numbers of rows
-- and requests are natural numbers. Floats are the finite ones. Fuel is given to
-- `bisect`, the search of `_bucket`, as many rounds as there are edges, and to the loop of
-- `copy_load`, as many as there are rows.
--
-- Not modelled: the histograms among the metrics, the routing of FastAPI, the set-up of Alembic, the
-- fitting of the model, and the timing of single predictions.
mod Prelude
pub mod Texts
pub mod Exceptions
pub mod Database
pub mod Writer
pub mod Redis
pub mod Cache
pub mod Service
pub mod Exec
pub mod Tokens
pub mod RateLimit
pub mod Floats
pub mod Drift
pub mod Repository
pub mod Users
pub mod Auth
pub mod Schemas
pub mod Health
pub mod Config
pub mod Registry
pub mod Logs
pub mod Scripts
pub mod App
pub mod Training
pub mod Migrations
pub mod Routes
