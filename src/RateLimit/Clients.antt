-- ===== src/RateLimit/Clients.antt =====
-- Whose budget a request draws on (app/core/rate_limit.py).
use Prim.Native.String
use Prim.Native.Char.{code}
use fast_api_project.Prelude.{ℕ, String}

-- the first code point, 0 if there is none
abbrev first_code : String → ℕ
first_code String.[] = 0
first_code (String.◌∷◌ c t) = code c
