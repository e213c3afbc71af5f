-- ===== src/Service/Examples.antt =====
-- The service of app/services/model_service.py over a key-value store in memory.
use fast_api_project.Prelude.{
  ℕ, zero, suc, ◌≡◌, refl, sym, ap, ◌∙◌, ◌+◌, String, Bool, true, false, Option, none, some, List,
  [], ◌∷◌, str_eq, eq_iff, if◌then◌else◌, arith,
}
use fast_api_project.Exceptions.{Result, ok, raise, validation}
use fast_api_project.Redis.{Redis, reply, redis_error, IsKeyValue}
use fast_api_project.Cache.{
  Encodings, CacheState, build_cache_key, prefix, get_cached_prediction, set_cached_prediction,
}
use fast_api_project.Service.{predict, lookup_or_infer, infer_and_store}
use fast_api_project.Service.Transparent.{
  price_of, serving, IsCoherent, IsCollisionFree, predict-transparent,
}

pub tally : ℕ → String
tally zero = ""
tally (suc n) = String.◌∷◌ "1" (tally n)

size : String → ℕ
size String.[] = 0
size (String.◌∷◌ c t) = suc (size t)

size-tally : (n : ℕ) → size (tally n) ≡ n
unfolding size tally
size-tally zero = refl
size-tally (suc n) = ap suc (size-tally n)

-- a car is `true` or `false`, and the model fails on the second
abbrev enc : Encodings Bool ℕ
enc = record {
  payload = λ f. if f then "a" else "ab";
  sha256_hex = λ t. t;
  decimal = tally;
  dumps = tally;
  loads = λ w. some (size w);
}

abbrev model : Bool → Result ℕ
model f = if f then ok 12 else raise validation

abbrev Store : Type 0
Store = String → Option String

abbrev memory : Redis Store
memory = record {
  get = λ key now s. reply (s key) s;
  set = λ key value seconds now s. reply tt (λ j. if str_eq j key then some value else s j);
  incr_expire = λ key seconds now s. redis_error s;
}

abbrev held : Store → String → ℕ → Option String
held s k t = s k

memory-IsKeyValue : IsKeyValue memory held
memory-IsKeyValue = record {
  get_reply = λ k now s s' v e. cc;
  get_state = λ k now s j t w e. e;
  set_state = λ k v seconds now s j t w e. ground (arith, eq_iff j k);
}

abbrev blank : CacheState Store
blank = record {
  server = λ k. none;
  log = record { errors = λ op. 0; last_logged = λ op. none; lines = [] };
}

distinct : IsCollisionFree enc memory held model (some 3)
unfolding build_cache_key prefix tally
distinct true true e = refl
distinct false false e = refl
distinct true false e = cc
distinct false true e = cc

blank-IsCoherent : IsCoherent enc memory held model (some 3) blank.server
blank-IsCoherent f t w e = cc

program : Unit {0}
unfolding predict lookup_or_infer infer_and_store get_cached_prediction set_cached_prediction
    build_cache_key prefix tally size
program = tt

-- the second prediction is a hit
hit :
    (let first = predict enc memory 3600 (serving enc memory held model (some 3)) true 1000 blank in
      (predict enc memory 3600 (serving enc memory held model (some 3)) true 2000 first.1).0
      ≡ ok (12, true))
unfolding program
hit = refl

predict-transparent_example :
    (let out = predict enc memory 3600 (serving enc memory held model (some 3)) true 1000 blank in
      (price_of out.0 ≡ model true) × IsCoherent enc memory held model (some 3) out.1.server)
predict-transparent_example =
    predict-transparent enc memory held model (some 3) memory-IsKeyValue
      (λ p. ap some (size-tally p)) distinct 3600 true 1000 blank blank-IsCoherent

pub tally_inj : (a b : ℕ) → tally a ≡ tally b → a ≡ b
tally_inj a b e = sym (size-tally a) ∙ ap size e ∙ size-tally b

-- each version has a price of its own
abbrev models : ℕ → Bool → Result ℕ
models n f = if f then ok (10 + n) else raise validation

-- the second version is asked after the first has stored its price, and then the first again
abbrev rollout : List (Option ℕ × (Bool × ℕ))
rollout = (some 1, (true, 1000)) ∷ (some 2, (true, 1001)) ∷ (some 1, (true, 1002)) ∷ []
