-- ===== src/Exceptions/Examples.antt =====
-- The handlers of app/core/exceptions.py at concrete exceptions.
use fast_api_project.Prelude.{◌≡◌, refl}
use fast_api_project.Exceptions.{unhandled, handle_exception}

leak : (handle_exception (unhandled "duplicate key (asha)")).status ≡ 500
unfolding handle_exception
leak = refl
