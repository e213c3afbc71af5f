-- ===== src/Scripts/LoadTest/Session.antt =====
-- scripts/load_test.py: the session with the server, which is a parameter with its state passed along.
-- `asyncio.gather` gives the results in the order of the payloads, and what one request finds of
-- another is up to that state. The request for /model/info, which is only recorded, is left out.
use fast_api_project.Prelude.{
  ℕ, zero, suc, String, not, ◌&&◌, Option, none, some, List, [], ◌∷◌, map, length, get_or,
  replicate, str_eq, ◌==◌, if◌then◌else◌,
}
use fast_api_project.Floats.{Floats}
use fast_api_project.Schemas.{CarFeatures}
use fast_api_project.Scripts.{Rng}
use fast_api_project.Scripts.Cars.{build_vector}
use fast_api_project.Scripts.LoadTest.{Reply, Outcome, fire, Report, report_of}

pub record Config : Type 0 where
  pub target : String
  pub total_requests : ℕ
  pub unique_vectors : ℕ

-- The server as the client sees it: the status of a registration, that of a login and its token, and a
-- timed request, for a car or for /health.
pub record Client (F T S : Type 0) : Type 0 where
  pub register : S → ℕ × S
  pub login : S → (ℕ × T) × S
  pub request : Option T → Option (CarFeatures F) → S → (Reply × F) × S

pub data SystemExit : Type 0 where
  unknown_target : SystemExit
  not_registered not_logged_in warm_up_failed : ℕ → SystemExit

pub data Run {ℓ} (A : Type ℓ) : Type ℓ where
  finished : A → Run A
  exits : SystemExit → Run A

module _ {F R : Type 0} (fl : Floats F) (rng : Rng F R) where
  -- `[build_vector(rng) for _ in range(n)]`
  unfoldable pub vectors : ℕ → R → List (CarFeatures F) × R
  unfolding build_vector
  vectors zero r = ([], r)
  vectors (suc n) r =
      let first = build_vector fl rng r in
      let rest = vectors n first.1 in (first.0 ∷ rest.0, rest.1)

  -- `[pool[rng.randrange(size)] for _ in range(n)]`, from a pool that starts with `first`
  unfoldable pub draws :
      (first : CarFeatures F) → (pool : List (CarFeatures F)) → ℕ → R → List (CarFeatures F)
  draws first pool zero r = []
  draws first pool (suc n) r =
      let drawn = rng.below (length pool) r in
      get_or pool drawn.0 first ∷ draws first pool n drawn.1

  abbrev pub draw_from : List (CarFeatures F) → ℕ → R → List (CarFeatures F)
  draw_from [] n r = []
  draw_from (first ∷ pool) n r = draws first (first ∷ pool) n r

  unfoldable pub build_payloads : Config → R → List (Option (CarFeatures F))
  unfolding vectors draws
  build_payloads config r =
      if str_eq config.target "health"
      then replicate config.total_requests none
      else if config.unique_vectors == 0
      then map some (vectors config.total_requests r).0
      else map some (
          draw_from (vectors config.unique_vectors r).0 config.total_requests
            (vectors config.unique_vectors r).1)

module _ {F T S : Type 0} (client : Client F T S) where
  unfoldable pub authenticate : S → Run T × S
  authenticate s =
      let registered = client.register s in
      let logged_in = client.login registered.1 in
      if not (registered.0 == 201) && not (registered.0 == 409)
      then (exits (not_registered registered.0), registered.1)
      else if logged_in.0.0 == 200
      then (finished logged_in.0.1, logged_in.1)
      else (exits (not_logged_in logged_in.0.0), logged_in.1)

  unfoldable pub fire_all : Option T → List (Option (CarFeatures F)) → S → List (Outcome F) × S
  unfolding fire
  fire_all token [] s = ([], s)
  fire_all token (payload ∷ payloads) s =
      let replied = client.request token payload s in
      let rest = fire_all token payloads replied.1 in
      (fire payload replied.0.0 replied.0.1 ∷ rest.0, rest.1)

module _ {F R T S : Type 0} (fl : Floats F) (rng : Rng F R) (client : Client F T S)
    (ceil_share : ℕ → ℕ → ℕ) (fmean : List F → F) (wall_seconds : F) where
  -- The one request before the clock starts, and then all of them
  unfoldable pub warm_up_and_fire :
      Option T → Option (CarFeatures F) → List (Option (CarFeatures F)) → S → Run (Report F) × S
  unfolding fire fire_all report_of
  warm_up_and_fire token warmup_payload payloads s =
      let warmed = client.request token warmup_payload s in
      let warmup = fire warmup_payload warmed.0.0 warmed.0.1 in
      let results = fire_all client token payloads warmed.1 in
      if warmup.status == 200
      then (finished (report_of fl ceil_share fmean results.0 wall_seconds), results.1)
      else (exits (warm_up_failed warmup.status), warmed.1)

  abbrev pub signed_in :
      (warmup_payload : Option (CarFeatures F))
      → List (Option (CarFeatures F))
      → Run T × S
      → Run (Report F) × S
  signed_in warmup_payload payloads (finished token, s) =
      warm_up_and_fire (some token) warmup_payload payloads s
  signed_in warmup_payload payloads (exits why, s) = (exits why, s)

  -- `main` after the payloads are built
  unfoldable pub session :
      (target : String)
      → (warmup_car : CarFeatures F) → List (Option (CarFeatures F))
      → S
      → Run (Report F) × S
  unfolding authenticate warm_up_and_fire
  session target warmup_car payloads s =
      if str_eq target "predict"
      then signed_in (some warmup_car) payloads (authenticate client s)
      else if str_eq target "health"
      then warm_up_and_fire none none payloads s
      else (exits unknown_target, s)

  -- `main`, from the states `Random(SEED)` and `Random(0)`
  unfoldable pub run : Config → (seeded zeroed : R) → S → Run (Report F) × S
  unfolding build_payloads build_vector session
  run config seeded zeroed s =
      session config.target (build_vector fl rng zeroed).0 (build_payloads fl rng config seeded) s
