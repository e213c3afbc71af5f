-- ===== src/Scripts/Demo.antt =====
-- scripts/drift_demo.py: the traffic that it sends, to a server that is a parameter with its state. The
-- printing is left out.
pub mod Sample
pub mod Run
use fast_api_project.Prelude.{
  ℕ, zero, suc, ◌+◌, ◌≡◌, refl, ap, ◌∙◌, true, List, [], ◌∷◌, All, length, ◌==◌, if◌then◌else◌,
  arith,
}
use fast_api_project.Floats.{Floats}
use fast_api_project.Schemas.{CarFeatures, valid_car}
use fast_api_project.Scripts.{Rng, IsDocumented}
use fast_api_project.Scripts.Cars.{sample_shifted}
use fast_api_project.Scripts.Cars.Valid.{sample_shifted-valid}

-- The number of predictions that were answered, or the status that ended the run
pub data Sent : Type 0 where
  answered : ℕ → Sent
  exits : (status : ℕ) → Sent

module _ {P S : Type 0} (post : P → S → ℕ × S) where
  -- `send`, from a count of answers; `post` gives the status of POST /predict for a payload
  unfoldable pub send_from : ℕ → List P → S → Sent × S
  send_from sent [] s = (answered sent, s)
  send_from sent (payload ∷ payloads) s =
      let response = post payload s in
      let counted = send_from (sent + 1) payloads response.1 in
      let skipped = send_from sent payloads response.1 in
      if response.0 == 200
      then counted
      else if response.0 == 422
      then skipped
      else (exits response.0, response.1)

  unfoldable pub send : List P → S → Sent × S
  unfolding send_from
  send payloads s = send_from 0 payloads s

module _ {F R : Type 0} (fl : Floats F) (rng : Rng F R) where
  -- `[sample_shifted(rng) for _ in range(n)]`
  unfoldable pub shifted : ℕ → R → List (CarFeatures F)
  unfolding sample_shifted
  shifted zero r = []
  shifted (suc n) r = let first = sample_shifted fl rng r in first.0 ∷ shifted n first.1

  shifted-Valid :
      IsDocumented fl rng → (n : ℕ) (r : R) → All (λ car. valid_car fl car ≡ true) (shifted n r)
  unfolding shifted
  shifted-Valid doc zero r = tt
  shifted-Valid doc (suc n) r = (sample_shifted-valid fl rng doc r, shifted-Valid doc n _)

  length-shifted : (n : ℕ) (r : R) → length (shifted n r) ≡ n
  unfolding shifted
  length-shifted zero r = refl
  length-shifted (suc n) r = ap suc (length-shifted n _)

module _ {F S : Type 0} (fl : Floats F) (post : CarFeatures F → S → ℕ × S)
    (answers : (car : CarFeatures F) (s : S) → valid_car fl car ≡ true → (post car s).0 ≡ 200) where
  send_from-answered :
      (sent : ℕ) (cars : List (CarFeatures F)) (s : S)
      → All (λ car. valid_car fl car ≡ true) cars
      → (send_from post sent cars s).0 ≡ answered (sent + length cars)
  unfolding send_from
  send_from-answered sent [] s a = ap answered (omega arith)
  send_from-answered sent (car ∷ cars) s (here, a) =
      rw (answers car s here) (send_from-answered (sent + 1) cars _ a ∙ ap answered (omega arith))

-- With the documented random generator, and against a server that answers every car its schema accepts: all
-- of the shifted traffic is answered.
pub send-shifted :
    {F R S : Type 0} (fl : Floats F) (rng : Rng F R) (post : CarFeatures F → S → ℕ × S)
    → ((car : CarFeatures F) (s : S) → valid_car fl car ≡ true → (post car s).0 ≡ 200)
    → IsDocumented fl rng
    → (n : ℕ) (r : R) (s : S) → (send post (shifted fl rng n r) s).0 ≡ answered n
unfolding send
send-shifted fl rng post answers doc n r s =
    send_from-answered fl post answers 0 (shifted fl rng n r) s (shifted-Valid fl rng doc n r)
    ∙ ap answered (omega (arith, length-shifted fl rng n r))
