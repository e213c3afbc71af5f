-- ===== src/Registry/Versions.antt =====
-- The version check of app/services/model_registry.py against that of app/api/routes_model.py.
use fast_api_project.Prelude.{
  ◌≡◌, ◌≢◌, refl, String, Bool, Option, none, some, eq_iff, if◌then◌else◌, arith,
}
use fast_api_project.Exceptions.{ok}
use fast_api_project.Registry.{
  MetadataFile, ModelInfo, read_metadata, versions_match, load_bundle, version_match_of, model_info,
}

match_agrees :
    (trained_with : Option String) (runtime : String)
    → trained_with ≢ some ""
    → versions_match trained_with runtime ≡ version_match_of trained_with runtime
unfolding versions_match version_match_of
match_agrees none runtime h = refl
match_agrees (some v) runtime h = ground (arith, eq_iff v "")

-- For every metadata file, missing and broken ones included, whose scikit-learn version is not an
-- empty text: the endpoint answers for the loaded bundle, and says that the versions match exactly
-- where the gauge of the loading process is 1.
pub load_bundle-model_info :
    {F : Type 0} (is_zero : F → Bool) (runtime : String) (file : MetadataFile F)
    → (read_metadata file).sklearn_version ≢ some ""
    → (let loaded = load_bundle is_zero runtime file in
        (info : ModelInfo) × (model_info runtime (some loaded.0) ≡ ok info)
        × (loaded.1.model_sklearn_match ≡ (if info.version_match then 1 else 0)))
unfolding load_bundle model_info
load_bundle-model_info is_zero runtime file h =
    (_, refl, rw (match_agrees (read_metadata file).sklearn_version runtime h) refl)
