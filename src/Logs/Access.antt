-- ===== src/Logs/Access.antt =====
-- app/middleware/logging_middleware.py. The application behind the middleware is a parameter: it
-- sends messages and then returns or raises. Bytes of a header are texts, and the fresh UUID is an
-- argument. The duration is left out.
use fast_api_project.Prelude.{
  ℕ, String, Option, none, some, List, [], ◌∷◌, ◌++◌, map, str_eq, if◌then◌else◌,
}
use fast_api_project.Exceptions.{Result}
use fast_api_project.Cache.{prefix}

pub data Message : Type 0 where
  response_start : (status : ℕ) → (headers : List (String × String)) → Message
  other : String → Message

pub record Scope : Type 0 where
  pub kind : String
  pub method : String
  pub path : String
  pub headers : List (String × String)

-- One line of the log `api.access`, with the id that the filter stamps on it.
pub record AccessLine : Type 0 where
  pub method : String
  pub path : String
  pub status : ℕ
  pub request_id : String

-- The context variable `request_id`, and the lines logged so far.
pub record Context : Type 0 where
  pub request_id : String
  pub lines : List AccessLine

-- What the application behind does with a request: it reads the context variable, sends messages,
-- and returns or raises.
abbrev pub Asgi : Type 0
Asgi = (request_id : String) → List Message × Result (Unit {0})

abbrev pub request_id_header : String
request_id_header = "x-request-id"

-- `dict(headers).get(name)`: the last of several
unfoldable pub header_of : String → List (String × String) → Option String → Option String
header_of name [] found = found
header_of name ((key, value) ∷ headers) found =
    header_of name headers (if str_eq key name then some value else found)

-- An empty header counts as missing.
unfoldable pub correlation_of : Option String → (uuid_hex : String) → String
unfolding prefix
correlation_of none uuid_hex = prefix 16 uuid_hex
correlation_of (some incoming) uuid_hex =
    if str_eq incoming "" then prefix 16 uuid_hex else prefix 64 incoming

-- `send_wrapper`: what is sent on
unfoldable pub wrap : (correlation : String) → Message → Message
wrap correlation (response_start status headers) =
    response_start status (headers ++ (request_id_header, correlation) ∷ [])
wrap correlation (other kind) = other kind

-- `send_wrapper`: the status, which is 500 until a response starts
unfoldable pub status_after : ℕ → List Message → ℕ
status_after status [] = status
status_after status (response_start s headers ∷ messages) = status_after s messages
status_after status (other kind ∷ messages) = status_after status messages

-- What `logger.info` records
abbrev pub access_line : Scope → (status : ℕ) → (request_id : String) → AccessLine
access_line scope status request_id = record {
  method = scope.method;
  path = scope.path;
  status = status;
  request_id = request_id;
}

-- The messages as sent on, and the `finally` that follows what the application did
abbrev pub finish :
    Scope
    → (correlation : String) → Context
    → List Message × Result (Unit {0})
    → (List Message × Result (Unit {0})) × Context
finish scope correlation c (messages, outcome) = (
  (map (wrap correlation) messages, outcome),
  record c { lines = access_line scope (status_after 500 messages) correlation ∷ c.lines },
)

-- `LoggingMiddleware.__call__`: what is sent, how the call ends, and the context after it
unfoldable pub call :
    Asgi → Scope → (uuid_hex : String) → Context → (List Message × Result (Unit {0})) × Context
unfolding header_of correlation_of wrap status_after
call app scope uuid_hex c =
    let correlation = correlation_of (header_of request_id_header scope.headers none) uuid_hex in
    if str_eq scope.kind "http"
    then finish scope correlation c (app correlation)
    else (app c.request_id, c)
