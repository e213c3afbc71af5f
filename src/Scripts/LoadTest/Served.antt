-- ===== src/Scripts/LoadTest/Served.antt =====
-- scripts/load_test.py against a server that answers every car that it accepts.
use fast_api_project.Prelude.{
  ℕ, String, zero, suc, ◌≡◌, refl, ap, ◌⊎◌, Bool, true, Option, none, some, List, [], ◌∷◌, All, map,
  length, get_or, replicate, filter, str_eq, ◌==◌, Bool-cases, inl, inr, arith,
}
use mathlib.Core.Path.{subst}
use fast_api_project.Floats.{Floats}
use fast_api_project.Schemas.{CarFeatures, valid_car}
use fast_api_project.Scripts.{Rng, IsDocumented}
use fast_api_project.Scripts.Cars.Valid.{build_vector-valid}
use fast_api_project.Scripts.LoadTest.{response, Outcome, fire, Report, report_of}
use fast_api_project.Scripts.LoadTest.Session.{
  Client, Config, Run, finished, vectors, draws, draw_from, build_payloads, fire_all,
  warm_up_and_fire, authenticate, session, run,
}
use fast_api_project.Scripts.LoadTest.Accounts.{length-build_payloads, length-fire_all}

module _ {F : Type 0} (fl : Floats F) where
  abbrev pub Accepted : Option (CarFeatures F) → Type 0
  Accepted none = Unit
  Accepted (some car) = valid_car fl car ≡ true

  -- It lets the load test's user in, new or known, and answers every accepted car and /health.
  pub record IsServing {T S : Type 0} (client : Client F T S) : Type 0 where
    pub registers : (s : S) → ((client.register s).0 ≡ 201) ⊎ ((client.register s).0 ≡ 409)
    pub logs_in : (s : S) → (client.login s).0.0 ≡ 200
    pub answers :
        (token : Option T) (payload : Option (CarFeatures F)) (s : S)
        → Accepted payload
        → (cached : Option Bool) × ((client.request token payload s).0.0 ≡ response 200 cached)

module _ {F R : Type 0} (fl : Floats F) (rng : Rng F R) (doc : IsDocumented fl rng) where
  abbrev Valid : CarFeatures F → Type 0
  Valid car = valid_car fl car ≡ true

  vectors-Valid : (n : ℕ) (r : R) → All Valid (vectors fl rng n r).0
  unfolding vectors
  vectors-Valid zero r = tt
  vectors-Valid (suc n) r = (build_vector-valid fl rng doc r, vectors-Valid n _)

  get_or-Valid :
      (pool : List (CarFeatures F)) (i : ℕ) (first : CarFeatures F)
      → All Valid pool
      → Valid first
      → Valid (get_or pool i first)
  get_or-Valid [] i first a h = h
  get_or-Valid (car ∷ pool) zero first (here, a) h = here
  get_or-Valid (car ∷ pool) (suc i) first (here, a) h = get_or-Valid pool i first a h

  draws-Valid :
      (first : CarFeatures F) (pool : List (CarFeatures F)) (n : ℕ) (r : R)
      → Valid first
      → All Valid pool
      → All Valid (draws fl rng first pool n r)
  unfolding draws
  draws-Valid first pool zero r h a = tt
  draws-Valid first pool (suc n) r h a =
      (get_or-Valid pool (rng.below (length pool) r).0 first a h, draws-Valid first pool n _ h a)

  draw_from-Valid :
      (pool : List (CarFeatures F)) (n : ℕ) (r : R)
      → All Valid pool
      → All Valid (draw_from fl rng pool n r)
  draw_from-Valid [] n r a = tt
  draw_from-Valid (first ∷ pool) n r (here, a) = draws-Valid first (first ∷ pool) n r here (here, a)

  some-Accepted : (cars : List (CarFeatures F)) → All Valid cars → All (Accepted fl) (map some cars)
  some-Accepted [] a = tt
  some-Accepted (car ∷ cars) (here, a) = (here, some-Accepted cars a)

  health-Accepted : (n : ℕ) → All (Accepted fl) (replicate n none)
  health-Accepted zero = tt
  health-Accepted (suc n) = (tt, health-Accepted n)

  build_payloads-Accepted :
      (config : Config) (r : R) → All (Accepted fl) (build_payloads fl rng config r)
  unfolding build_payloads
  build_payloads-Accepted config r = elim (Bool-cases (str_eq config.target "health")) [
    | inl health ↦ rw health (health-Accepted config.total_requests)
    | inr predict ↦ elim (Bool-cases (config.unique_vectors == 0)) [
      | inl fresh ↦ rw (predict, fresh) (some-Accepted _ (vectors-Valid config.total_requests r))
      | inr pooled ↦
          rw (predict, pooled)
            (some-Accepted _
              (draw_from-Valid _ config.total_requests _ (vectors-Valid config.unique_vectors r)))
    ]
  ]

fire-status :
    {F : Type 0} (payload : Option (CarFeatures F)) (status : ℕ) (cached : Option Bool) (ms : F)
    → (fire payload (response status cached) ms).status ≡ status
unfolding fire
fire-status none status cached ms = refl
fire-status (some car) status cached ms = refl

module _ {F T S : Type 0} (fl : Floats F) (client : Client F T S)
    (serving : IsServing fl client) where
  abbrev successes : List (Outcome F) → ℕ
  successes results = length (filter (λ o. o.status == 200) results)

  request-good :
      (token : Option T) (payload : Option (CarFeatures F)) (s : S)
      → Accepted fl payload
      → ((fire payload
            (client.request token payload s).0.0
            (client.request token payload s).0.1).status
          == 200)
        ≡ true
  request-good token payload s a =
      let (cached, answered) = serving.answers token payload s a in
      let good = fire-status payload 200 cached (client.request token payload s).0.1 in
      rw (answered, good) refl

  successes-fire_all :
      (token : Option T) (payloads : List (Option (CarFeatures F))) (s : S)
      → All (Accepted fl) payloads
      → successes (fire_all client token payloads s).0 ≡ length payloads
  unfolding fire_all
  successes-fire_all token [] s a = refl
  successes-fire_all token (payload ∷ payloads) s (here, a) =
      rw (request-good token payload s here) (ap suc (successes-fire_all token payloads _ a))

  authenticate-lets_in :
      (s : S)
      → authenticate client s ≡ (
          let logged_in = client.login (client.register s).1 in
          (finished logged_in.0.1, logged_in.1))
  unfolding authenticate
  authenticate-lets_in s = elim (serving.registers s) [
    | inl created ↦ rw (created, serving.logs_in (client.register s).1)
    | inr taken ↦ rw (taken, serving.logs_in (client.register s).1)
  ]

module _ {F R T S : Type 0} (fl : Floats F) (rng : Rng F R) (client : Client F T S)
    (ceil_share : ℕ → ℕ → ℕ) (fmean : List F → F) (wall_seconds : F) where
  -- the run reports that all of its requests succeeded
  abbrev pub AllServed : ℕ → Run (Report F) → Type 0
  AllServed total result =
      (report : Report F) × (result ≡ finished report)
      × (report.successful ≡ total)
      × (report.failed ≡ 0)

  warm_up_and_fire-AllServed :
      (serving : IsServing fl client) (token : Option T) (warmup_payload : Option (CarFeatures F))
      (payloads : List (Option (CarFeatures F))) (s : S)
      → Accepted fl warmup_payload
      → All (Accepted fl) payloads
      → AllServed
          (length payloads)
          (warm_up_and_fire fl rng client ceil_share fmean wall_seconds token warmup_payload
            payloads s).0
  unfolding warm_up_and_fire report_of
  warm_up_and_fire-AllServed serving token warmup_payload payloads s warm a =
      let after = (client.request token warmup_payload s).1 in
      let good = successes-fire_all fl client serving token payloads after a in
      let all = length-fire_all client token payloads after in
      rw (request-good fl client serving token warmup_payload s warm)
        (_, refl, good, omega (arith, good, all))

  session-AllServed :
      (serving : IsServing fl client) (target : String) (warmup_car : CarFeatures F)
      (payloads : List (Option (CarFeatures F))) (s : S)
      → (target ≡ "predict") ⊎ (target ≡ "health")
      → valid_car fl warmup_car ≡ true
      → All (Accepted fl) payloads
      → AllServed
          (length payloads)
          (session fl rng client ceil_share fmean wall_seconds target warmup_car payloads s).0
  unfolding session
  session-AllServed serving target warmup_car payloads s (inl predict) warm a =
      let logged_in = client.login (client.register s).1 in
      rw (predict, authenticate-lets_in fl client serving s)
        (warm_up_and_fire-AllServed serving (some logged_in.0.1) (some warmup_car) payloads
          logged_in.1 warm a)
  session-AllServed serving target warmup_car payloads s (inr health) warm a =
      rw health (warm_up_and_fire-AllServed serving none none payloads s tt a)

  -- With the documented random generator, and against a server that lets the user in and answers every
  -- car that its schema accepts, a load test of either target gets to its report, with TOTAL_REQUESTS
  -- successes and no failure.
  pub run-AllServed :
      (doc : IsDocumented fl rng) (serving : IsServing fl client) (config : Config)
      (seeded zeroed : R) (s : S)
      → (config.target ≡ "predict") ⊎ (config.target ≡ "health")
      → AllServed config.total_requests
          (run fl rng client ceil_share fmean wall_seconds config seeded zeroed s).0
  unfolding run
  run-AllServed doc serving config seeded zeroed s known =
      let payloads = build_payloads fl rng config seeded in
      subst
        (λ n.
          AllServed n (run fl rng client ceil_share fmean wall_seconds config seeded zeroed s).0)
        (length-build_payloads fl rng config seeded)
        (session-AllServed serving config.target _ payloads s known
          (build_vector-valid fl rng doc zeroed) (build_payloads-Accepted fl rng doc config seeded))
