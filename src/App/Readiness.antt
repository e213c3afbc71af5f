-- ===== src/App/Readiness.antt =====
-- `ready` of app/api/routes_health.py, for a process that app/main.py started.
use fast_api_project.Prelude.{ℕ, ◌≡◌, Bool, Option-cases, inl, inr, if◌then◌else◌}
use fast_api_project.Floats.{Floats}
use fast_api_project.App.{Application, get_redis}

abbrev status_of : Bool → ℕ
status_of b = if b then 200 else 503

module _ {P F Row S C : Type 0} where
  -- The client is made once: a later call gives the client of the first, whatever it would make.
  pub get_redis-once :
      (made again : C) (app : Application P F Row S C)
      → get_redis again (get_redis made app).1 ≡ get_redis made app
  unfolding get_redis
  get_redis-once made again app = elim (Option-cases app.redis) [
    | inl missing ↦ rw missing
    | inr (client, present) ↦ rw present
  ]
