-- ===== src/Registry/Examples.antt =====
-- A bundle of app/services/model_registry.py that was trained under another version.
use fast_api_project.Prelude.{ℕ, ◌≡◌, ◌≢◌, refl, none, some, ◌==◌}
use fast_api_project.Registry.{
  no_metadata, MetadataFile, decoded, read_metadata, load_bundle, note_of, model_performance,
}

abbrev file : MetadataFile ℕ
file =
    decoded (record no_metadata { version = some 4; sklearn_version = some "1.5.0"; mae = some 90 })

known : (read_metadata file).sklearn_version ≢ some ""
unfolding read_metadata
known e = cc

mismatch : (load_bundle (λ n. n == 0) "1.6.1" file).1.model_sklearn_match ≡ 0
unfolding load_bundle
mismatch = refl

unscored :
    (model_performance
      (λ n. "n")
      (record { scored = 0; mae = none; mape_pct = none })
      (some (read_metadata file))).training_mae
    ≡ some 90
unfolding model_performance read_metadata note_of
unscored = refl
