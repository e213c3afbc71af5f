-- ===== src/Service/Fleet.antt =====
-- Processes that serve different versions of the model share one Redis (app/services/model_service.py over
-- app/cache/redis_cache.py), as while a retrained model is rolled out.
use fast_api_project.Prelude.{ℕ, ◌≡◌, String, Option, List, [], ◌∷◌}
use fast_api_project.Exceptions.{Result}
use fast_api_project.Redis.{Redis}
use fast_api_project.Cache.{Encodings, CacheState, prefix, version_or_zero}
use fast_api_project.Service.{predict}
use fast_api_project.Service.Transparent.{price_of, serving, IsCoherent}

module _ {Features Price : Type 0} (enc : Encodings Features Price) where
  abbrev pub digest : Features → String
  digest f = prefix 32 (enc.sha256_hex (enc.payload f))

module _ {Features Price S : Type 0} (enc : Encodings Features Price) (redis : Redis S)
    (value : S → String → ℕ → Option String) (models : ℕ → Features → Result Price) (ttl : ℕ) where
  -- the model of a process that serves a version, where no version counts as 0
  abbrev pub model_of : Option ℕ → Features → Result Price
  model_of v = models (version_or_zero v)

  -- what Redis holds is coherent with the model of every version
  abbrev pub AllCoherent : S → Type 0
  AllCoherent s = (v : Option ℕ) → IsCoherent enc redis value (model_of v) v s

  -- predictions one after another, each by a process that serves a version
  unfoldable pub predict_all :
      List (Option ℕ × (Features × ℕ)) → CacheState S → List (Result Price) × CacheState S
  unfolding predict
  predict_all [] c = ([], c)
  predict_all ((v, (f, now)) ∷ rest) c =
      let out = predict enc redis ttl (serving enc redis value (model_of v) v) f now c in
      let answers = predict_all rest out.1 in (price_of out.0 ∷ answers.0, answers.1)

  abbrev pub DistinctDigests : Type 0
  DistinctDigests =
      (f g : Features) → digest enc f ≡ digest enc g → (n : ℕ) → models n f ≡ models n g
