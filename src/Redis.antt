-- ===== src/Redis.antt =====
-- What app/cache/redis_cache.py and app/core/rate_limit.py use of the Redis client, as a
-- parameter. A command replies or raises `RedisError`; either way the server goes on from a state
-- of `S`, since a command that timed out may have been carried out. Times are in milliseconds.
use fast_api_project.Prelude.{ℕ, ◌+◌, ◌*◌, ◌≤◌, ◌<◌, ◌≡◌, ◌≢◌, ◌⊎◌, String, Option, some}

pub data Reply (S A : Type 0) : Type 0 where
  reply : A → S → Reply S A
  redis_error : S → Reply S A

pub record Redis (S : Type 0) : Type 0 where
  -- GET key
  pub get : (key : String) (now : ℕ) → S → Reply S (Option String)
  -- SET key value EX seconds
  pub set : (key value : String) (seconds now : ℕ) → S → Reply S (Unit {0})
  -- the pipeline INCR key, EXPIRE key seconds; the reply is that of INCR
  pub incr_expire : (key : String) (seconds now : ℕ) → S → Reply S ℕ

abbrev pub state : {S A : Type 0} → Reply S A → S
state (reply a s) = s
state (redis_error s) = s

-- The documented behaviour of GET and SET. `value s k t` is the text that the server in state `s`
-- holds under `k` at time `t`, if the key has not expired and was not evicted. A SET may be lost.
pub record IsKeyValue {S : Type 0} (r : Redis S) (value : S → String → ℕ → Option String)
    : Type 0 where
  pub get_reply :
      (k : String) (now : ℕ) (s s' : S) (v : Option String)
      → r.get k now s ≡ reply v s'
      → v ≡ value s k now
  pub get_state :
      (k : String) (now : ℕ) (s : S) (j : String) (t : ℕ) (w : String)
      → value (state (r.get k now s)) j t ≡ some w
      → value s j t ≡ some w
  pub set_state :
      (k v : String) (seconds now : ℕ) (s : S) (j : String) (t : ℕ) (w : String)
      → value (state (r.set k v seconds now s)) j t ≡ some w
      → ((j ≡ k) × (w ≡ v)) ⊎ (value s j t ≡ some w)

-- The documented behaviour of the pipeline on a server that answers: `count s k t` is the number
-- held under `k` at time `t`, 0 if there is none. A key lives `seconds` after the last EXPIRE.
pub record IsCounter {S : Type 0} (r : Redis S) (count : S → String → ℕ → ℕ) : Type 0 where
  pub incr_reply :
      (k : String) (seconds now : ℕ) (s : S)
      → (s' : S) × (r.incr_expire k seconds now s ≡ reply (count s k now + 1) s')
        × ((t : ℕ) → now ≤ t → t < now + seconds * 1000 → count s' k t ≡ count s k now + 1)
        × ((j : String) (t : ℕ) → j ≢ k → count s' j t ≡ count s j t)
