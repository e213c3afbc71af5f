-- ===== src/RateLimit/Window.antt =====
-- How many requests a window admits (app/core/rate_limit.py).
use fast_api_project.Prelude.{
  ℕ, zero, suc, ◌+◌, ◌*◌, ◌/◌, ◌≤◌, ◌<◌, ◌≡◌, refl, ap, sym, ◌∙◌, String, Bool, true, false, some,
  List, [], ◌∷◌, length, get_elem?, ltb, arith,
}
use native.Mathlib.Nat.{div-add-mod, mod-lt}
use fast_api_project.Exceptions.{Result, ok, raise}
use mathlib.Core.Option
use fast_api_project.Redis.{Redis, IsCounter}
use fast_api_project.Cache.{CacheState}
use fast_api_project.Tokens.{Jwt, TokenSettings}
use fast_api_project.RateLimit.{
  Request, Limits, bucket_of, rate_limit_key, count_request, enforce_rate_limit, enforce_all,
}

abbrev pub is_ok : {A : Type 0} → Result A → Bool
is_ok (ok a) = true
is_ok (raise e) = false

pub near_of_div : (last now w : ℕ) → 0 < w → last / w ≡ now / w → now < last + w
near_of_div last now w pos h =
    grind (arith, div-add-mod last w, div-add-mod now w, mod-lt now {m = w} pos)

module _ (jwt : Jwt) (settings : TokenSettings) (lower : String → String) (decimal : ℕ → String)
    {S : Type 0} (redis : Redis S) (limits : Limits) (count : S → String → ℕ → ℕ) where
  -- requests that are counted under one key, in one window, at times that do not go back
  abbrev pub SameBudget : String → ℕ → ℕ → List (Request × ℕ) → Type 0
  SameBudget key bucket last [] = Unit
  SameBudget key bucket last ((request, now) ∷ rest) =
      (rate_limit_key jwt settings lower decimal limits request now ≡ key)
      × (bucket_of limits now ≡ bucket)
      × (last ≤ now)
      × SameBudget key bucket now rest

  -- the key holds `n`, and does so for as long as it lives after its last use
  abbrev Holds : S → String → ℕ → ℕ → Type 0
  Holds s key n last =
      (t : ℕ)
      → last ≤ t
      → t < last + limits.rate_limit_window_seconds * 2 * 1000
      → count s key t ≡ n

  count_request-Holds :
      (key : String) (n last now : ℕ) (c : CacheState S)
      → IsCounter redis count
      → 0 < limits.rate_limit_window_seconds
      → Holds c.server key n last
      → last ≤ now
      → bucket_of limits last ≡ bucket_of limits now
      → (is_ok (count_request jwt settings lower decimal redis limits key now c).0
          ≡ ltb n limits.rate_limit_requests)
        × Holds
            (count_request jwt settings lower decimal redis limits key now c).1.server
            key
            (n + 1)
            now
  unfolding count_request bucket_of
  count_request-Holds key n last now c law pos holds le e =
      let window = limits.rate_limit_window_seconds in
      let (s', replied, mine, _) = law.incr_reply key (window * 2) now c.server in
      let near : now < last + window * 1000 =
        near_of_div last now (window * 1000) (omega arith) e in
      let held : count c.server key now ≡ n = holds now le (omega (arith, near)) in
      rw (replied, count_request)
        (ground (arith, held), λ t after before. mine t after before ∙ ap (λ (k : ℕ). k + 1) held)

  enforce-count :
      (key : String) (request : Request) (now : ℕ) (c : CacheState S)
      → rate_limit_key jwt settings lower decimal limits request now ≡ key
      → enforce_rate_limit jwt settings lower decimal redis limits request now c
        ≡ count_request jwt settings lower decimal redis limits key now c
  unfolding enforce_rate_limit
  enforce-count key request now c k =
      ap (λ u. count_request jwt settings lower decimal redis limits u now c) k

  verdict_at :
      (key : String) (bucket n last : ℕ) (requests : List (Request × ℕ)) (c : CacheState S)
      → IsCounter redis count
      → 0 < limits.rate_limit_window_seconds
      → Holds c.server key n last
      → bucket_of limits last ≡ bucket
      → SameBudget key bucket last requests
      → (i : ℕ) → i < length requests
      → Option.map is_ok
          (get_elem? (enforce_all jwt settings lower decimal redis limits requests c).0 i)
        ≡ some (ltb (n + i) limits.rate_limit_requests)
  unfolding enforce_all
  verdict_at key bucket n last [] c law pos holds e same i lt = absurd (omega arith)
  verdict_at key bucket n last ((request, now) ∷ rest) c law pos holds e (k, b, le, same) zero lt =
      let (admitted, _) = count_request-Holds key n last now c law pos holds le (e ∙ sym b) in
      let z : n + 0 ≡ n = omega arith in
      rw (enforce-count key request now c k, z) (ap some admitted)
  verdict_at key bucket n last ((request, now) ∷ rest) c law pos holds e (k, b, le, same) (suc i)
        lt =
      let (_, holds') = count_request-Holds key n last now c law pos holds le (e ∙ sym b) in
      let z : n + suc i ≡ n + 1 + i = omega arith in
      rw (enforce-count key request now c k, z)
        (verdict_at key bucket (n + 1) now rest _ law pos holds' b same i (omega arith))

  -- With Redis up, a budget is spent in order: of the requests that one client sends to one route in
  -- one window, in order of time and starting with a fresh counter, exactly the first `RATE_LIMIT_REQUESTS` pass, and each later
  -- one is refused.
  pub enforce_all-exact :
      (key : String) (start : ℕ) (requests : List (Request × ℕ)) (c : CacheState S)
      → IsCounter redis count
      → 0 < limits.rate_limit_window_seconds
      → ((t : ℕ) → count c.server key t ≡ 0)
      → SameBudget key (bucket_of limits start) start requests
      → (i : ℕ) → i < length requests
      → Option.map is_ok
          (get_elem? (enforce_all jwt settings lower decimal redis limits requests c).0 i)
        ≡ some (ltb i limits.rate_limit_requests)
  enforce_all-exact key start requests c law pos fresh same i lt =
      let z : 0 + i ≡ i = omega arith in
      verdict_at key _ 0 start requests c law pos (λ t _ _. fresh t) refl same i lt
      ∙ ap (λ (m : ℕ). some (ltb m limits.rate_limit_requests)) z
