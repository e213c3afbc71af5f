-- ===== src/RateLimit/Mixed.antt =====
-- Requests of any clients to any routes, in any order (app/core/rate_limit.py), against a limiter that counts
-- with a list.
use fast_api_project.Prelude.{
  ℕ, ◌+◌, ◌*◌, ◌≤◌, ◌<◌, ◌≡◌, ◌≢◌, refl, ap, sym, ◌∙◌, String, Bool, false, List, [], ◌∷◌, map, ltb,
  str_eq, eq_iff, if◌then◌else◌, Bool-cases, inl, inr, arith,
}
use mathlib.Core.Path.{subst}
use fast_api_project.Redis.{Redis, IsCounter}
use fast_api_project.Cache.{CacheState}
use fast_api_project.Tokens.{Jwt, TokenSettings}
use fast_api_project.RateLimit.{
  Request, Limits, bucket_of, rate_limit_key, count_request, enforce_rate_limit, enforce_all,
}
use fast_api_project.RateLimit.Window.{is_ok, near_of_div}
use fast_api_project.Texts.{has_colon}
use fast_api_project.RateLimit.Keys.{rate_limit_key-bucket}

-- how often a key is in a list
abbrev pub occurrences : String → List String → ℕ
occurrences key [] = 0
occurrences key (k ∷ keys) = (if str_eq k key then 1 else 0) + occurrences key keys

differ : (a b : String) → str_eq a b ≡ false → b ≢ a
differ a b h e = absurd (ground (arith, eq_iff a b, sym e))

-- times that do not go back
abbrev pub InOrder : ℕ → List (Request × ℕ) → Type 0
InOrder last [] = Unit
InOrder last ((request, now) ∷ rest) = (last ≤ now) × InOrder now rest

module _ (jwt : Jwt) (settings : TokenSettings) (lower : String → String) (decimal : ℕ → String)
    (limits : Limits) where
  abbrev key_of : Request → ℕ → String
  key_of = rate_limit_key jwt settings lower decimal limits

  -- The limiter as it should be: `seen` holds the keys of the requests so far, and a request passes
  -- where fewer of them than the limit have its own.
  abbrev pub admitted : List String → List (Request × ℕ) → List Bool
  admitted seen [] = []
  admitted seen ((request, now) ∷ rest) =
      let key = key_of request now in
      ltb (occurrences key seen) limits.rate_limit_requests ∷ admitted (key ∷ seen) rest

  -- a key that is used again has not expired
  lives :
      (request other : Request) (now t : ℕ)
      → 0 < limits.rate_limit_window_seconds
      → ((n : ℕ) → has_colon (decimal n) ≡ false)
      → ((a b : ℕ) → decimal a ≡ decimal b → a ≡ b)
      → key_of request now ≡ key_of other t
      → t < now + limits.rate_limit_window_seconds * 2 * 1000
  unfolding bucket_of
  lives request other now t pos plain inj e =
      let window = limits.rate_limit_window_seconds in
      let b =
        rate_limit_key-bucket jwt settings lower decimal limits request other now t plain inj e in
      let near = near_of_div now t (window * 1000) (omega arith) b in omega (arith, near)

  module _ {S : Type 0} (redis : Redis S) (count : S → String → ℕ → ℕ) where
    -- from `last` on, every key that a request can have counts the requests that had it
    abbrev Counts : S → List String → ℕ → Type 0
    Counts s seen last =
        (request : Request) (t : ℕ)
        → last ≤ t
        → count s (key_of request t) t ≡ occurrences (key_of request t) seen

    -- what the counters hold when one request more has been counted
    count_request-Counts :
        (key : String) (now : ℕ) (seen : List String) (c : CacheState S)
        → IsCounter redis count
        → count c.server key now ≡ occurrences key seen
        → (is_ok (count_request jwt settings lower decimal redis limits key now c).0
            ≡ ltb (occurrences key seen) limits.rate_limit_requests)
          × ((t : ℕ)
              → now ≤ t
              → t < now + limits.rate_limit_window_seconds * 2 * 1000
              → count
                  (count_request jwt settings lower decimal redis limits key now c).1.server
                  key
                  t
                ≡ 1 + occurrences key seen)
          × ((j : String) (t : ℕ)
              → j ≢ key
              → count (count_request jwt settings lower decimal redis limits key now c).1.server j t
                ≡ count c.server j t)
    unfolding count_request
    count_request-Counts key now seen c law held =
        let (s', replied, mine, others) =
          law.incr_reply key (limits.rate_limit_window_seconds * 2) now c.server in
        rw (replied, count_request)
          (
            ground (arith, held),
            λ t after before. ground (arith, held, mine t after before),
            λ j t other. others j t other,
          )

    enforce-Counts :
        (request : Request) (now last : ℕ) (seen : List String) (c : CacheState S)
        → IsCounter redis count
        → 0 < limits.rate_limit_window_seconds
        → ((n : ℕ) → has_colon (decimal n) ≡ false)
        → ((a b : ℕ) → decimal a ≡ decimal b → a ≡ b)
        → Counts c.server seen last
        → last ≤ now
        → (is_ok (enforce_rate_limit jwt settings lower decimal redis limits request now c).0
            ≡ ltb (occurrences (key_of request now) seen) limits.rate_limit_requests)
          × Counts
              (enforce_rate_limit jwt settings lower decimal redis limits request now c).1.server
              (key_of request now ∷ seen)
              now
    unfolding enforce_rate_limit
    enforce-Counts request now last seen c law pos plain inj counts le =
        let key = key_of request now in
        let (verdict, mine, others) =
          count_request-Counts key now seen c law (counts request now le) in
        let s' = (count_request jwt settings lower decimal redis limits key now c).1.server in
        (
          verdict,
          λ other t after. elim (Bool-cases (str_eq key (key_of other t))) [
            | inl same ↦
                let e : key ≡ key_of other t = (eq_iff key (key_of other t)).0 same in
                let soon = lives request other now t pos plain inj e in
                rw same (subst (λ j. count s' j t ≡ 1 + occurrences j seen) e (mine t after soon))
            | inr differs ↦
                let old = counts other t (omega arith) in
                rw differs (
                  others (key_of other t) t (differ key (key_of other t) differs)
                  ∙ old
                  ∙ omega arith)
          ],
        )

    enforce_all-Counts :
        (requests : List (Request × ℕ)) (last : ℕ) (seen : List String) (c : CacheState S)
        → IsCounter redis count
        → 0 < limits.rate_limit_window_seconds
        → ((n : ℕ) → has_colon (decimal n) ≡ false)
        → ((a b : ℕ) → decimal a ≡ decimal b → a ≡ b)
        → Counts c.server seen last
        → InOrder last requests
        → map is_ok (enforce_all jwt settings lower decimal redis limits requests c).0
          ≡ admitted seen requests
    unfolding enforce_all
    enforce_all-Counts [] last seen c law pos plain inj counts order = refl
    enforce_all-Counts ((request, now) ∷ rest) last seen c law pos plain inj counts (le, order) =
        let (verdict, counts') =
          enforce-Counts request now last seen c law pos plain inj counts le in
        let c' = (enforce_rate_limit jwt settings lower decimal redis limits request now c).1 in
        rw verdict (
          ap
            (λ (bs : List Bool).
              ltb (occurrences (key_of request now) seen) limits.rate_limit_requests ∷ bs)
            (enforce_all-Counts rest now (key_of request now ∷ seen) c' law pos plain inj counts'
              order))

    -- With Redis up, fresh counters, and numbers that are written without a colon, each in its own way: of
    -- requests at times that do not go back, whoever sends them and to whatever routes, over however many
    -- windows, the limiter passes exactly those that fewer than `RATE_LIMIT_REQUESTS` requests before
    -- them had the key of: their client, route and window.
    pub enforce_all-admitted :
        (requests : List (Request × ℕ)) (start : ℕ) (c : CacheState S)
        → IsCounter redis count
        → 0 < limits.rate_limit_window_seconds
        → ((n : ℕ) → has_colon (decimal n) ≡ false)
        → ((a b : ℕ) → decimal a ≡ decimal b → a ≡ b)
        → ((key : String) (t : ℕ) → count c.server key t ≡ 0)
        → InOrder start requests
        → map is_ok (enforce_all jwt settings lower decimal redis limits requests c).0
          ≡ admitted [] requests
    enforce_all-admitted requests start c law pos plain inj fresh order =
        enforce_all-Counts requests start [] c law pos plain inj
          (λ request t after. fresh (key_of request t) t) order
