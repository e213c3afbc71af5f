-- ===== src/Exceptions/Handlers.antt =====
-- What a client sees of an exception (app/core/exceptions.py).
use fast_api_project.Prelude.{String, ◌≡◌, ◌≢◌, refl, Option, none, some, arith, eq_iff}
use fast_api_project.Exceptions.{
  ErrorClass, app_error, Exc, app, unhandled, integrity_error, validation, status_code,
  class_detail, handle_exception,
}

class_detail-ne-nil : (c : ErrorClass) → class_detail c ≢ ""
unfolding class_detail
class_detail-ne-nil ErrorClass.invalid_credentials = λ e. cc
class_detail-ne-nil c = λ e. cc

status_code-ne-500 : (c : ErrorClass) → status_code c ≢ 500
unfolding status_code
status_code-ne-500 ErrorClass.invalid_credentials = omega arith
status_code-ne-500 _ = omega arith

-- Whatever is raised, a response with status 500 carries the one generic detail: the text of an
-- exception that the application did not define never reaches the client.
pub handle_exception-generic :
    (e : Exc)
    → (handle_exception e).status ≡ 500
    → (handle_exception e).detail ≡ "Internal server error"
unfolding handle_exception
handle_exception-generic (app e) h = absurd (status_code-ne-500 e.error_class h)
handle_exception-generic validation h = absurd (omega arith)
handle_exception-generic integrity_error h = refl
handle_exception-generic (unhandled message) h = refl

-- An error of the application is never shown with an empty detail, also where it is raised with
-- an empty one, and never as a 500.
pub handle_exception-app :
    (c : ErrorClass) (d : Option String)
    → ((handle_exception (app (app_error c d))).detail ≢ "")
      × ((handle_exception (app (app_error c d))).status ≢ 500)
unfolding handle_exception app_error
handle_exception-app c none = (class_detail-ne-nil c, status_code-ne-500 c)
handle_exception-app c (some d) =
    (ground (arith, eq_iff d "", class_detail-ne-nil c), status_code-ne-500 c)
