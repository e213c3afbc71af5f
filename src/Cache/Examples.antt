-- ===== src/Cache/Examples.antt =====
-- The failure log of app/cache/redis_cache.py at a concrete failure.
use fast_api_project.Prelude.{◌≡◌, refl, none, [], ◌∷◌}
use fast_api_project.Cache.{ErrorLog, cache_get, record_redis_error}
use fast_api_project.Cache.Errors.{IsThrottled, lines_of, record_redis_error-IsThrottled}

abbrev blank : ErrorLog
blank = record { errors = λ op. 0; last_logged = λ op. none; lines = [] }

blank-IsThrottled : IsThrottled blank
unfolding lines_of
blank-IsThrottled = record { recorded = λ op. refl; spaced = λ op. tt }

-- of two failures a second apart, one line is written
abbrev twice : ErrorLog
twice = record_redis_error cache_get 6000 (record_redis_error cache_get 5000 blank)

twice-runs : (lines_of cache_get twice.lines ≡ 5000 ∷ []) × (twice.errors cache_get ≡ 2)
unfolding record_redis_error lines_of
twice-runs = (refl, refl)

record_redis_error-IsThrottled_example : IsThrottled (record_redis_error cache_get 5000 blank)
record_redis_error-IsThrottled_example =
    record_redis_error-IsThrottled cache_get 5000 blank blank-IsThrottled
