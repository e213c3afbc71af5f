-- ===== src/Service/Transparent.antt =====
-- The cache is transparent: app/services/model_service.py over app/cache/redis_cache.py returns
-- what the model would, whatever Redis does.
use fast_api_project.Prelude.{
  ℕ, ◌≡◌, refl, sym, ◌∙◌, ap, ◌⊎◌, inl, inr, String, Bool, Option, none, some,
}
use fast_api_project.Exceptions.{Result, ok, raise}
use fast_api_project.Redis.{Reply, reply, redis_error, state, Redis, IsKeyValue}
use fast_api_project.Cache.{
  Encodings, CacheState, build_cache_key, decode, get_cached_prediction, set_cached_prediction,
}
use fast_api_project.Service.{PredictionService, infer_and_store, lookup_or_infer, predict}

-- How a command can end, with its equation kept.
Reply-cases :
    {S A : Type 0} (m : Reply S A)
    → ((a : A) × (s : S) × (m ≡ reply a s)) ⊎ ((s : S) × (m ≡ redis_error s))
Reply-cases (reply a s) = inl (a, s, refl)
Reply-cases (redis_error s) = inr (s, refl)

-- the answer of the service without a cache
abbrev pub price_of : {Price : Type 0} → Result (Price × Bool) → Result Price
price_of (ok p) = ok p.0
price_of (raise e) = raise e

module _ {Features Price S : Type 0} (enc : Encodings Features Price) (redis : Redis S) where
  pub get-server :
      (key : String) (now : ℕ) (c : CacheState S)
      → (get_cached_prediction enc redis key now c).1.server ≡ state (redis.get key now c.server)
  unfolding get_cached_prediction
  get-server key now c = elim (Reply-cases (redis.get key now c.server)) [
    | inl (raw, s, e) ↦ rw (e, get_cached_prediction)
    | inr (s, e) ↦ rw (e, get_cached_prediction)
  ]

  pub set-server :
      (ttl : ℕ) (key : String) (p : Price) (now : ℕ) (c : CacheState S)
      → (set_cached_prediction enc redis ttl key p now c).server
        ≡ state (redis.set key (enc.dumps p) ttl now c.server)
  unfolding set_cached_prediction
  set-server ttl key p now c = elim (Reply-cases (redis.set key (enc.dumps p) ttl now c.server)) [
    | inl (_, s, e) ↦ rw (e, set_cached_prediction)
    | inr (s, e) ↦ rw (e, set_cached_prediction)
  ]

module _ {Features Price S : Type 0} (enc : Encodings Features Price) (redis : Redis S)
    (value : S → String → ℕ → Option String) (model : Features → Result Price)
    (version : Option ℕ) where
  abbrev pub serving : PredictionService Features Price
  serving = record { model = some model; model_version = version }

  -- Whatever the server holds under the key of some features, now or later, is the JSON of the
  -- model's price for them, or text that the code does not read as a price.
  abbrev pub IsCoherent : S → Type 0
  IsCoherent s =
      (f : Features) (t : ℕ) (w : String)
      → value s (build_cache_key enc f version) t ≡ some w
      → (enc.loads w ≡ none) ⊎ ((p : Price) × (enc.loads w ≡ some p) × (model f ≡ ok p))

  -- two features with one key have one price
  abbrev pub IsCollisionFree : Type 0
  IsCollisionFree =
      (f g : Features)
      → build_cache_key enc f version ≡ build_cache_key enc g version
      → model f ≡ model g

  module _ (law : IsKeyValue redis value)
      (roundtrip : (p : Price) → enc.loads (enc.dumps p) ≡ some p) (distinct : IsCollisionFree)
      (ttl : ℕ) where
    got_price :
        (f : Features) (now : ℕ) (s : S) (raw : Option String)
        → IsCoherent s
        → raw ≡ value s (build_cache_key enc f version) now
        → (decode enc raw ≡ none) ⊎ ((p : Price) × (decode enc raw ≡ some p) × (model f ≡ ok p))
    got_price f now s none h e = inl refl
    got_price f now s (some w) h e = h f now w (sym e)

    get-IsCoherent :
        (key : String) (now : ℕ) (c : CacheState S)
        → IsCoherent c.server
        → IsCoherent (get_cached_prediction enc redis key now c).1.server
    get-IsCoherent key now c h f t w e =
        h f t w (law.get_state key now c.server _ t w (rw get-server at e))

    get-price :
        (f : Features) (now : ℕ) (c : CacheState S)
        → IsCoherent c.server
        → (let got = get_cached_prediction enc redis (build_cache_key enc f version) now c in
            (got.0 ≡ none) ⊎ ((p : Price) × (got.0 ≡ some p) × (model f ≡ ok p)))
    unfolding get_cached_prediction
    get-price f now c h =
        let key = build_cache_key enc f version in
        elim (Reply-cases (redis.get key now c.server)) [
          | inl (raw, s, e) ↦
              rw (e, get_cached_prediction)
                (got_price f now c.server raw h (law.get_reply key now c.server s raw e))
          | inr (s, e) ↦ rw (e, get_cached_prediction) (inl refl)
        ]

    set-IsCoherent :
        (f : Features) (p : Price) (now : ℕ) (c : CacheState S)
        → model f ≡ ok p
        → IsCoherent c.server
        → IsCoherent
            (set_cached_prediction enc redis ttl (build_cache_key enc f version) p now c).server
    set-IsCoherent f p now c e h g t w at_g =
        elim (law.set_state _ (enc.dumps p) ttl now c.server _ t w (rw set-server at at_g)) [
          | inl (same_key, same_text) ↦
              inr (p, ap enc.loads same_text ∙ roundtrip p, distinct g f same_key ∙ e)
          | inr old ↦ h g t w old
        ]

    infer_and_store-transparent :
        (r : Result Price) (f : Features) (now : ℕ) (c : CacheState S)
        → model f ≡ r
        → IsCoherent c.server
        → (let out = infer_and_store enc redis ttl model f (build_cache_key enc f version) now c in
            (price_of out.0 ≡ model f) × IsCoherent out.1.server)
    unfolding infer_and_store
    infer_and_store-transparent (ok p) f now c e h =
        rw (e, infer_and_store) (refl, set-IsCoherent f p now c e h)
    infer_and_store-transparent (raise x) f now c e h = rw (e, infer_and_store) (refl, h)

    lookup_or_infer-transparent :
        (got : Option Price × CacheState S) (f : Features) (now : ℕ)
        → (got.0 ≡ none) ⊎ ((p : Price) × (got.0 ≡ some p) × (model f ≡ ok p))
        → IsCoherent got.1.server
        → (let out =
              lookup_or_infer enc redis ttl model f (build_cache_key enc f version) now got in
            (price_of out.0 ≡ model f) × IsCoherent out.1.server)
    unfolding lookup_or_infer
    lookup_or_infer-transparent (none, c) f now _ h =
        infer_and_store-transparent (model f) f now c refl h
    lookup_or_infer-transparent (some q, c) f now (inl e) h = cc
    lookup_or_infer-transparent (some q, c) f now (inr (p, e, m)) h = (cc, h)

    -- Where keys do not collide, cached prices are read back as written, and the server is coherent, a
    -- prediction is what the model says, on a hit, on a miss and with
    -- Redis failing, exceptions of the model included; and the server stays coherent.
    pub predict-transparent :
        (f : Features) (now : ℕ) (c : CacheState S)
        → IsCoherent c.server
        → (let out = predict enc redis ttl serving f now c in
            (price_of out.0 ≡ model f) × IsCoherent out.1.server)
    unfolding predict
    predict-transparent f now c h =
        let key = build_cache_key enc f version in
        lookup_or_infer-transparent (get_cached_prediction enc redis key now c) f now
          (get-price f now c h) (get-IsCoherent key now c h)
