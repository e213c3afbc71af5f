-- ===== src/Health/Keeps.antt =====
-- What a failed refresh keeps, and what a caller without the operator's key cannot change.
use fast_api_project.Prelude.{
  ◌≡◌, ◌≢◌, refl, String, Bool, true, false, if◌then◌else◌, Option, some,
}
use fast_api_project.Exceptions.{Result, ok, raise, raise_app, ErrorClass}
use fast_api_project.Floats.{Floats}
use fast_api_project.Tokens.{TokenSettings}
use fast_api_project.Tokens.Checks.{require_api_key_iff}
use fast_api_project.Drift.{Constants}
use fast_api_project.Drift.Monitor.{ColumnEngine, DriftMonitor}
use fast_api_project.Health.{ScoreEngine, Health, model_drift}

-- what a call that raises leaves as it was
abbrev pub IsKept : {A B : Type 0} → Result A → B → B → Type 0
IsKept (ok a) b b' = Unit
IsKept (raise e) b b' = b' ≡ b

abbrev Keeps : {A B S : Type 0} → B → Result A × (B × S) → Type 0
Keeps b out = IsKept out.0 b out.1.0

module _ {F S : Type 0} (fl : Floats F) (k : Constants F) (columns : ColumnEngine F S) where
  module _ (scores : ScoreEngine F S) where
    -- Whoever lacks the operator's key reads the last drift report, or is refused for the key where
    -- a recompute is asked for; the monitor and the database stay as they are.
    pub model_drift-unauthorised :
        (settings : TokenSettings) (recompute : Bool) (api_key : Option String) (m : DriftMonitor F)
        (s : S)
        → settings.api_key ≢ ""
        → api_key ≢ some settings.api_key
        → model_drift fl scores k columns settings recompute api_key (m, s)
          ≡ (if recompute then raise_app ErrorClass.invalid_api_key else ok m.latest, (m, s))
    unfolding model_drift
    model_drift-unauthorised settings false api_key m s set_up wrong = refl
    model_drift-unauthorised settings true api_key m s set_up wrong =
        let refused = (require_api_key_iff settings api_key set_up).1 wrong in rw refused
