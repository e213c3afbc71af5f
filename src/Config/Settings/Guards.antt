-- ===== src/Config/Settings/Guards.antt =====
-- Who passes the API key check of app/core/dependencies.py under the settings of app/core/config.py.
use fast_api_project.Prelude.{
  ◌≤◌, ◌≡◌, refl, ap, ◌∙◌, ◌≢◌, ◌↔◌, String, Option, none, some, eq_iff, arith,
}
use fast_api_project.Exceptions.{ok}
use fast_api_project.Schemas.{text_length}
use fast_api_project.Tokens.{TokenSettings, require_api_key}
use fast_api_project.Config.{UrlFunctions}
use fast_api_project.Config.Settings.{Settings, Checked, good, bad, Readers, load, get_settings}
use fast_api_project.Config.Settings.Fields.{IsSecret}
use fast_api_project.Config.Settings.Boots.{load-good}

-- the settings that the checks of app/core/dependencies.py read
abbrev pub token_settings : Settings → TokenSettings
token_settings s = record {
  api_key = s.api_key;
  jwt_secret_key = s.jwt_secret_key;
  jwt_algorithm = s.jwt_algorithm;
  access_token_expire_minutes = s.access_token_expire_minutes;
  allow_public_registration = s.allow_public_registration;
}

none_refused : (settings : TokenSettings) (k : String) → require_api_key settings none ≢ ok k
unfolding require_api_key
none_refused settings k h = cc

passes_iff :
    (settings : TokenSettings) (given k : String)
    → settings.api_key ≢ ""
    → (require_api_key settings (some given) ≡ ok k) ↔ ((given ≡ k) × (given ≡ settings.api_key))
unfolding require_api_key
passes_iff settings given k h = ground (arith, eq_iff given "", eq_iff given settings.api_key)

nonempty : (key : String) → 8 ≤ text_length key → key ≢ ""
unfolding text_length
nonempty key h e = absurd (omega (arith, ap text_length e))

module _ (urls : UrlFunctions) (readers : Readers) (source : String → Option String) where
  get_settings-load :
      (s : Settings) (cached : Option Settings)
      → get_settings urls readers source none ≡ (good s, cached)
      → load urls readers source ≡ good s
  unfolding get_settings
  get_settings-load s cached h = go (load urls readers source) refl
    where
      go : (c : Checked Settings) → load urls readers source ≡ c → load urls readers source ≡ good s
      go (good t) e =
          let k : ◌≡◌ {A = Checked Settings × Option Settings} (good t, some t) (good s, cached) =
            rw (← h, get_settings, e) refl in
          e ∙ ap (λ p. p.0) k
      go (bad errors) e =
          let k : ◌≡◌ {A = Checked Settings × Option Settings} (bad errors, none) (good s, cached) =
            rw (← h, get_settings, e) refl in
          absurd (ground (arith, ap (λ p. p.0) k))

  -- In an application that has booted, a request passes the API key check exactly where its header is the
  -- API_KEY of the environment, and that key has 8 characters at least and is no placeholder.
  pub require_api_key-load :
      (s : Settings) (cached : Option Settings) (header : Option String) (k : String)
      → get_settings urls readers source none ≡ (good s, cached)
      → (require_api_key (token_settings s) header ≡ ok k)
        ↔ ((header ≡ some k) × IsSecret readers 8 (source "API_KEY") k)
  require_api_key-load s cached none k h =
      (λ p. absurd (none_refused (token_settings s) k p), λ (same, _). absurd (cc))
  require_api_key-load s cached (some given) k h =
      let (key, long, fine) =
        (load-good urls readers source s (get_settings-load s cached h)).1.0 in
      let filled = nonempty s.api_key long in
      (
        λ passes.
            let (f, e) = (passes_iff (token_settings s) given k filled).0 passes in
            rw (← f, e) (refl, (key, long, fine)),
        λ (same, (mine, _, _)). (passes_iff (token_settings s) given k filled).1 (cc, cc),
      )
