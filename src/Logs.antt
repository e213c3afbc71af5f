-- ===== src/Logs.antt =====
-- app/core/logging_config.py: the queue that takes the log off the event loop, the filter that stamps
-- a record with the id of its request, and the JSON formatter. A value of the log is a text here, as
-- `json.dumps(…, default=str)` prints it; dictionaries are association lists in their order.
pub mod Access
pub mod Correlated
mod Examples
use fast_api_project.Prelude.{
  ℕ, String, Bool, true, false, ◌||◌, Option, none, some, List, [], ◌∷◌, str_eq, if◌then◌else◌,
}
use fast_api_project.Drift.Scores.{assign}

-- A `logging.LogRecord`. `extras` is what is in `__dict__` beside its standard attributes and
-- `request_id`, which `extra=` may set too.
pub record LogRecord : Type 0 where
  pub ts : String
  pub level : String
  pub logger : String
  pub message : String
  pub request_id : Option String
  pub extras : List (String × String)
  pub exception : Option String

abbrev pub id_or : Option String → String → String
id_or none default = default
id_or (some id) default = id

-- `RequestIdFilter.filter`, with the value of the context variable
unfoldable pub filter_record : (current : String) → LogRecord → LogRecord
filter_record current r = record r { request_id = some (id_or r.request_id current) }

-- The loop over `record.__dict__`. The names in `standard` are those of `_STANDARD`.
unfoldable pub add_extras :
    (standard : String → Bool)
    → List (String × String)
    → List (String × String)
    → List (String × String)
unfolding assign
add_extras standard [] payload = payload
add_extras standard ((key, value) ∷ extras) payload =
    add_extras standard extras
      (if standard key || str_eq key "request_id" then payload else assign key value payload)

abbrev pub add_exception : Option String → List (String × String) → List (String × String)
add_exception none payload = payload
add_exception (some text) payload = assign "exception" text payload

-- `JsonFormatter.format`, before `json.dumps`
unfoldable pub format_record : (standard : String → Bool) → LogRecord → List (String × String)
unfolding add_extras
format_record standard r = add_exception r.exception (
    add_extras standard r.extras (
      ("ts", r.ts)
      ∷ ("level", r.level)
      ∷ ("logger", r.logger)
      ∷ ("request_id", id_or r.request_id "-")
      ∷ ("message", r.message)
      ∷ []))

pub data Format : Type 0 where
  json text : Format

-- A handler of the root logger: one that was there before, or the one that feeds the queue.
pub data Handler : Type 0 where
  existing : ℕ → Handler
  queue_handler : Handler

-- `_listener`, with the format of its stream, and the root logger
pub record Logging : Type 0 where
  pub listener : Option Format
  pub handlers : List Handler
  pub level : ℕ

abbrev pub format_of : String → Format
format_of fmt = if str_eq fmt "json" then json else text

abbrev configured : ℕ → String → Option Format → Logging → Logging
configured level fmt none l = record {
  listener = some (format_of fmt);
  handlers = queue_handler ∷ [];
  level = level;
}
configured level fmt (some f) l = l

unfoldable pub configure_logging : (level : ℕ) → (fmt : String) → Logging → Logging
configure_logging level fmt l = configured level fmt l.listener l

-- Stopping the listener writes what is still queued; the handler stays on the root logger.
unfoldable pub shutdown_logging : Logging → Logging
shutdown_logging l = record l { listener = none }
