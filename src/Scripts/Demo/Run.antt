-- ===== src/Scripts/Demo/Run.antt =====
-- `main` of scripts/drift_demo.py, from its check of the server to its second report. The server is a parameter
-- with its state, and so is what it reports of its drift.
use fast_api_project.Prelude.{
  ℕ, zero, suc, ◌+◌, ◌*◌, ◌≡◌, refl, ◌⊎◌, inl, inr, Bool, true, Option, none, some, List, [], ◌∷◌,
  map, ◌==◌, if◌then◌else◌,
}
use fast_api_project.Floats.{Floats}
use fast_api_project.Schemas.{CarFeatures}
use fast_api_project.Drift.{◌>>=◌}
use fast_api_project.Drift.Scores.{Row, Reference}
use fast_api_project.Scripts.{Rng}
use fast_api_project.Scripts.Demo.{answered, exits, send_from, send, shifted}
use fast_api_project.Scripts.Demo.Sample.{Draws, sample_in_distribution}

-- what a request for a prediction holds: a row of the training distribution, or a car of the shift
pub data Payload (F : Type 0) : Type 0 where
  sampled_row : Row F → Payload F
  shifted_car : CarFeatures F → Payload F

-- The server: the statuses of a registration, of a login with its token, and of /model/info, whether its drift
-- reference is configured, the status of a prediction, and the report that an operator has recomputed.
pub record Server (F T Report S : Type 0) : Type 0 where
  pub register : S → ℕ × S
  pub login : S → (ℕ × T) × S
  pub info : S → ℕ × S
  pub configured : S → Bool × S
  pub predict : T → Payload F → S → ℕ × S
  pub recompute : S → Report × S

-- what ends a run
pub data Stop : Type 0 where
  login_failed predict_failed : ℕ → Stop
  no_metadata not_configured no_file sampling_raised : Stop

pub data Demo (Report : Type 0) : Type 0 where
  reports : (before after : Report) → Demo Report
  stops : Stop → Demo Report

-- an exception ends the run, and a report leads on
abbrev pub then_report :
    {Report S : Type 0} → (Stop ⊎ Report) × S → (Report → S → Demo Report × S) → Demo Report × S
then_report (inl why, s) next = (stops why, s)
then_report (inr report, s) next = next report s

module _ {F T Report S R : Type 0} (fl : Floats F) (rng : Rng F R) (d : Draws F R)
    (server : Server F T Report S) where
  -- `[sample_in_distribution(reference, rng) for _ in range(n)]`
  unfoldable pub sampled_rows : Reference F → ℕ → R → Option (List (Payload F) × R)
  unfolding sample_in_distribution
  sampled_rows reference zero r = some ([], r)
  sampled_rows reference (suc n) r = sample_in_distribution fl d reference r >>= λ first.
      sampled_rows reference n first.1 >>= λ rest. some (sampled_row first.0 ∷ rest.0, rest.1)

  -- some traffic, and then the report
  unfoldable pub measure : T → List (Payload F) → S → (Stop ⊎ Report) × S
  unfolding send
  measure token payloads s =
      let sent = send (server.predict token) payloads s in
      elim sent.0 [
        | exits status ↦ (inl (predict_failed status), sent.1)
        | answered n ↦ (let report = server.recompute sent.1 in (inr report.0, report.1))
      ]

  -- from the sampled rows on
  unfoldable pub compare_traffic : T → ℕ → List (Payload F) → R → S → Demo Report × S
  unfolding measure shifted
  compare_traffic token batch in_dist r s = then_report (measure token in_dist s) λ before s₁.
      then_report (measure token (map shifted_car (shifted fl rng (batch * 4) r)) s₁)
        λ after s₂. (reports before after, s₂)

  -- from the metadata file on, `none` where it does not exist
  unfoldable pub with_reference : T → Option (Reference F) → ℕ → R → S → Demo Report × S
  unfolding compare_traffic sampled_rows
  with_reference token none batch r s = (stops no_file, s)
  with_reference token (some reference) batch r s = elim (sampled_rows reference batch r) [
    | none ↦ (stops sampling_raised, s)
    | some drawn ↦ compare_traffic token batch drawn.0 drawn.1 s
  ]

  -- `main`, with the metadata file and the batch
  unfoldable pub main : Option (Reference F) → ℕ → R → S → Demo Report × S
  unfolding with_reference
  main file batch r s =
      let login = server.login (server.register s).1 in
      let info = server.info login.1 in
      let configured = server.configured info.1 in
      let rest = with_reference login.0.1 file batch r configured.1 in
      if login.0.0 == 200
      then (if info.0 == 200
          then (if configured.0 then rest else (stops not_configured, configured.1))
          else (stops no_metadata, info.1))
      else (stops (login_failed login.0.0), login.1)

module _ {P S : Type 0} (post : P → S → ℕ × S)
    (replies : (p : P) (s : S) → ((post p s).0 ≡ 200) ⊎ ((post p s).0 ≡ 422)) where
  send_from-answers :
      (sent : ℕ) (payloads : List P) (s : S)
      → (n : ℕ) × ((send_from post sent payloads s).0 ≡ answered n)
  unfolding send_from
  send_from-answers sent [] s = (sent, refl)
  send_from-answers sent (p ∷ payloads) s = elim (replies p s) [
    | inl good ↦ rw good (send_from-answers (sent + 1) payloads _)
    | inr refused ↦ rw refused (send_from-answers sent payloads _)
  ]

module _ {F T Report S R : Type 0} (fl : Floats F) (rng : Rng F R) (d : Draws F R)
    (server : Server F T Report S)
    (replies : (token : T) (p : Payload F) (s : S)
      → ((server.predict token p s).0 ≡ 200) ⊎ ((server.predict token p s).0 ≡ 422)) where
  measure-reports :
      (token : T) (payloads : List (Payload F)) (s : S)
      → (report : Report) × (s' : S) × (measure fl rng d server token payloads s ≡ (inr report, s'))
  unfolding measure send
  measure-reports token payloads s =
      let (n, e) = send_from-answers (server.predict token) (replies token) 0 payloads s in
      let report = server.recompute (send (server.predict token) payloads s).1 in
      (report.0, report.1, rw (e, measure))

  compare_traffic-reports :
      (token : T) (batch : ℕ) (in_dist : List (Payload F)) (r : R) (s : S)
      → (before after : Report) × (s' : S) × (compare_traffic fl rng d server token batch in_dist r
            s
          ≡ (reports before after, s'))
  unfolding compare_traffic
  compare_traffic-reports token batch in_dist r s =
      let (before, s₁, first) = measure-reports token in_dist s in
      let (after, s₂, second) =
        measure-reports token (map shifted_car (shifted fl rng (batch * 4) r)) s₁ in
      (before, after, s₂, rw (compare_traffic, first, second))

  -- Where the account can log in, the server has a model with its drift reference, and it answers or refuses each
  -- payload but never fails, and the rows can be sampled: the demonstration ends with its two reports.
  pub main-reports :
      (reference : Reference F) (batch : ℕ) (r : R) (s : S) (drawn : List (Payload F) × R)
      → ((u : S) → (server.login u).0.0 ≡ 200)
      → ((u : S) → (server.info u).0 ≡ 200)
      → ((u : S) → (server.configured u).0 ≡ true)
      → sampled_rows fl rng d server reference batch r ≡ some drawn
      → (before after : Report) × (s' : S) × (main fl rng d server (some reference) batch r s
          ≡ (reports before after, s'))
  unfolding main with_reference
  main-reports reference batch r s drawn login info configured e =
      let logged = server.login (server.register s).1 in
      let known = server.configured (server.info logged.1).1 in
      let (before, after, s', done) =
        compare_traffic-reports logged.0.1 batch drawn.0 drawn.1 known.1 in
      (before, after, s', rw (main, login _, info _, configured _, with_reference, e) done)
