-- ===== src/Service.antt =====
-- app/services/model_service.py: a prediction from the cache, or else from the model.
-- The fitted pipeline is a parameter: a function that returns a price or raises.
pub mod Examples
pub mod Transparent
pub mod Fleet
pub mod Frame
use fast_api_project.Prelude.{ℕ, String, Bool, true, false, Option, none, some}
use fast_api_project.Exceptions.{Exc, Result, ok, raise, raise_app, ErrorClass}
use fast_api_project.Redis.{Redis}
use fast_api_project.Cache.{
  Encodings, CacheState, build_cache_key, get_cached_prediction, set_cached_prediction,
}

pub record PredictionService (Features Price : Type 0) : Type 0 where
  pub model : Option (Features → Result Price)
  pub model_version : Option ℕ

module _ {Features Price S : Type 0} (enc : Encodings Features Price) (redis : Redis S)
    (ttl : ℕ) where
  -- the branch of a cache miss
  unfoldable pub infer_and_store :
      (Features → Result Price)
      → Features
      → String
      → ℕ
      → CacheState S
      → Result (Price × Bool) × CacheState S
  infer_and_store model features key now c = elim (model features) [
    | ok price ↦ (ok (price, false), set_cached_prediction enc redis ttl key price now c)
    | raise e ↦ (raise e, c)
  ]

  unfoldable pub lookup_or_infer :
      (Features → Result Price)
      → Features
      → String
      → ℕ
      → Option Price × CacheState S
      → Result (Price × Bool) × CacheState S
  unfolding infer_and_store
  lookup_or_infer model features key now (none, c) = infer_and_store model features key now c
  lookup_or_infer model features key now (some price, c) = (ok (price, true), c)

  -- `PredictionService.predict`: the price, and whether the cache gave it
  unfoldable pub predict :
      PredictionService Features Price
      → Features
      → ℕ
      → CacheState S
      → Result (Price × Bool) × CacheState S
  unfolding lookup_or_infer
  predict service features now c = elim service.model [
    | none ↦ (raise_app ErrorClass.model_unavailable, c)
    | some model ↦
        let key = build_cache_key enc features service.model_version in
        lookup_or_infer model features key now (get_cached_prediction enc redis key now c)
  ]
