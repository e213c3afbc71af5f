-- ===== src/Logs/Examples.antt =====
-- A request to app/middleware/logging_middleware.py that fails half way, and a record that names an id.
use fast_api_project.Prelude.{◌≡◌, refl, none, [], ◌∷◌}
use fast_api_project.Exceptions.{ok}
use fast_api_project.Logs.{LogRecord}
use fast_api_project.Logs.Access.{
  response_start, other, Scope, Context, Asgi, call, correlation_of, header_of, wrap, status_after,
}

abbrev app : Asgi
app id = (response_start 200 (("content-type", id) ∷ []) ∷ other "body" ∷ [], ok tt)

abbrev scope : Scope
scope = record {
  kind = "http";
  method = "GET";
  path = "/health";
  headers = ("x-request-id", "abc") ∷ [];
}

abbrev context : Context
context = record { request_id = "-"; lines = [] }

echoed :
    (call app scope "f00d" context).0.0
    ≡ response_start 200 (("content-type", "abc") ∷ ("x-request-id", "abc") ∷ [])
      ∷ other "body"
      ∷ []
unfolding call wrap correlation_of header_of status_after
echoed = refl

abbrev line : LogRecord
line = record {
  ts = "now";
  level = "INFO";
  logger = "api";
  message = "hello";
  request_id = none;
  extras = ("request_id", "forged") ∷ ("path", "/") ∷ [];
  exception = none;
}
