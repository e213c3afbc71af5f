-- ===== src/App/Examples.antt =====
-- A process of app/main.py on numbers: one whose model unpickles, one request in flight at its end.
use fast_api_project.Prelude.{
  ℕ, ◌≡◌, refl, true, false, none, some, List, [], ◌∷◌, ◌++◌, length, ◌==◌,
}
use fast_api_project.Exceptions.{raise, unhandled}
use fast_api_project.Database.{Session, done}
use fast_api_project.Drift.{Constants}
use fast_api_project.Drift.Monitor.{new_monitor}
use fast_api_project.Registry.{no_metadata, MetadataFile, decoded}
use fast_api_project.Routes.Stub.{whole}
use fast_api_project.Writer.{init, start, enqueue}
use fast_api_project.Writer.Schedule.{boot, offer, Reach, here, next, offering}
use fast_api_project.App.{
  Estimator, Application, serve_single_threaded, counts_jobs, ends_with, startup, load_model,
  shutdown,
}
use fast_api_project.App.Lifespan.{IsDown, lifespan-IsDown}

abbrev memory : Session ℕ (List ℕ)
memory = record {
  execute_insert = λ rows s. done tt (s ++ rows);
  commit = λ s. done tt s;
  rollback = λ s. done tt s;
}

abbrev constants : Constants ℕ
constants = record {
  stable = 10;
  significant = 25;
  epsilon = 1;
  min_expected_share = 5;
  zero_float = 0;
}

-- a pipeline is the number of its threads
abbrev forest : Estimator ℕ
forest = record {
  get_params = λ p. "memory" ∷ "reg__n_jobs" ∷ [];
  set_params = λ params p. length params;
}

single : serve_single_threaded forest 8 ≡ 1
unfolding serve_single_threaded counts_jobs ends_with
single = refl

abbrev file : MetadataFile ℕ
file = decoded (record no_metadata { version = some 4 })

abbrev fresh : Application ℕ ℕ ℕ (List ℕ) ℕ
fresh = record {
  model_bundle = none;
  model = none;
  model_gauges = none;
  monitor = new_monitor whole constants 1000 50;
  system = boot 2 3 [];
  refresher = false;
  redis = none;
  engine = true;
  logging = record { listener = none; handlers = []; level = 20 };
}

abbrev up : Application ℕ ℕ ℕ (List ℕ) ℕ
up = startup whole constants forest (λ n. n == 0) "1.6.1" (raise (unhandled "EOFError")) file fresh

abbrev during : Application ℕ ℕ ℕ (List ℕ) ℕ
during = record up { system = offer 7 (offer 5 up.system) }

during-Reach : Reach memory up.system during.system
during-Reach = next (next here (offering 5 up.system)) (offering 7 (offer 5 up.system))

during-runs : during.system.writer.task ≡ true
unfolding startup load_model offer start boot init enqueue
during-runs = refl

lifespan-IsDown_example :
    IsDown whole constants forest
      (λ n. n == 0)
      "1.6.1"
      memory
      during.system
      (shutdown memory [] during)
lifespan-IsDown_example =
    lifespan-IsDown whole constants forest (λ n. n == 0) "1.6.1" memory
      (raise (unhandled "EOFError")) file fresh during 2 3 [] [] refl during-Reach during-runs
