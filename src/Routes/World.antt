-- ===== src/Routes/World.antt =====
-- What the handlers of app/api share: the database, the Redis client, the prediction writer and the
-- counter PREDICTIONS of app/core/metrics.py; and the rate limit that guards them.
use fast_api_project.Prelude.{
  Bool, true, false, not, ◌&&◌, ◌+◌, str_eq, if◌then◌else◌, ℕ, ◌≡◌, refl, sym, ◌∙◌, ap, String,
}
use fast_api_project.Exceptions.{Exc, Result, ok, raise}
use fast_api_project.Redis.{Redis}
use fast_api_project.Cache.{CacheState}
use fast_api_project.Writer.{Writer}
use fast_api_project.Exec.{M, resume}
use fast_api_project.Tokens.{Jwt, TokenSettings}
use fast_api_project.RateLimit.{Request, Limits, enforce_rate_limit}

pub record World (S R Row : Type 0) : Type 0 where
  pub database : S
  pub cache : CacheState R
  pub writer : Writer Row
  -- by company, and whether the cache answered
  pub predictions : String → Bool → ℕ

abbrev same_outcome : Bool → Bool → Bool
same_outcome true hit = hit
same_outcome false hit = not hit

-- `PREDICTIONS.labels(company=…, cache=outcome).inc()`
abbrev pub count_prediction :
    (company : String) → (hit : Bool) → (String → Bool → ℕ) → String → Bool → ℕ
count_prediction company hit predictions c h =
    if str_eq company c && same_outcome hit h then predictions c h + 1 else predictions c h

module _ {S R Row A : Type 0} where
  abbrev pub with_database : M S A → M (World S R Row) A
  with_database m w = let out = m w.database in (out.0, record w { database = out.1 })

  abbrev pub with_cache : (CacheState R → Result A × CacheState R) → M (World S R Row) A
  with_cache m w = let out = m w.cache in (out.0, record w { cache = out.1 })

-- what a guard needs: the settings, and the client library's functions
pub record Guard (R : Type 0) : Type 0 where
  pub jwt : Jwt
  pub settings : TokenSettings
  pub lower : String → String
  pub decimal : ℕ → String
  pub redis : Redis R
  pub limits : Limits

-- `Depends(enforce_rate_limit)`
abbrev pub limited : {S R Row : Type 0} → Guard R → Request → ℕ → M (World S R Row) (Unit {0})
limited g request now =
    with_cache (enforce_rate_limit g.jwt g.settings g.lower g.decimal g.redis g.limits request now)

-- A step of a handler returns or raises; what holds in both cases holds of the handler.
pub resume-cases :
    {W A B : Type 0} (P : Result B × W → Type 0) (m : Result A × W) (f : A → M W B)
    → ((a : A) (w : W) → m ≡ (ok a, w) → P (f a w))
    → ((e : Exc) (w : W) → m ≡ (raise e, w) → P (raise e, w))
    → P (resume m f)
resume-cases P (ok a, w) f good bad = good a w refl
resume-cases P (raise e, w) f good bad = bad e w refl

-- a step that leaves the writer, the database and the counter alone
abbrev pub IsUndisturbed : {S R Row : Type 0} → World S R Row → World S R Row → Type 0
IsUndisturbed w w' =
    (w'.writer ≡ w.writer) × (w'.database ≡ w.database) × (w'.predictions ≡ w.predictions)

pub same_after :
    {S R Row A : Type 0} (w : World S R Row) {w' : World S R Row} {m : Result A × World S R Row}
    {r : Result A}
    → IsUndisturbed w m.1
    → m ≡ (r, w')
    → IsUndisturbed w w'
same_after w (a, b, c) e = (
  sym (ap (λ o. o.1.writer) e) ∙ a,
  sym (ap (λ o. o.1.database) e) ∙ b,
  sym (ap (λ o. o.1.predictions) e) ∙ c,
)
