-- ===== src/Tokens/Checks.antt =====
-- Who passes the checks of app/core/dependencies.py.
use fast_api_project.Prelude.{
  ℕ, ◌+◌, ◌*◌, ◌≤◌, ◌≡◌, refl, ◌≢◌, ◌↔◌, String, false, Option, none, some, [], ◌∷◌, eq_iff, arith,
  Option-cases, inl, inr,
}
use fast_api_project.Exceptions.{ok, raise_app, ErrorClass}
use fast_api_project.Tokens.{
  Claim, Claims, int, text, Jwt, TokenSettings, Principal, principal_from, require_api_key,
  allow_registration, create_access_token, decode_access_token, claims, get_current_principal,
}

-- The API key check passes exactly the configured key, which the settings keep non-empty, and every
-- other header, or none, is an `InvalidApiKeyError`.
pub require_api_key_iff :
    (settings : TokenSettings) (api_key : Option String)
    → settings.api_key ≢ ""
    → ((require_api_key settings api_key ≡ ok settings.api_key) ↔ (api_key ≡ some settings.api_key))
      × (api_key ≢ some settings.api_key
          → require_api_key settings api_key ≡ raise_app ErrorClass.invalid_api_key)
unfolding require_api_key
require_api_key_iff settings none h = ground arith
require_api_key_iff settings (some k) h = ground (arith, eq_iff k "", eq_iff k settings.api_key)

-- Where sign-up is closed, it is allowed exactly to callers with the configured key; where it is
-- open, to everybody.
pub allow_registration_iff :
    (settings : TokenSettings) (api_key : Option String)
    → settings.api_key ≢ ""
    → (allow_registration settings api_key ≡ ok tt)
      ↔ (settings.allow_public_registration ≡ false → api_key ≡ some settings.api_key)
unfolding allow_registration
allow_registration_iff settings none h = ground arith
allow_registration_iff settings (some k) h = ground (arith, eq_iff k "", eq_iff k settings.api_key)

principal_from-claims :
    (uid sub : Claim) (p : Principal)
    → principal_from uid sub ≡ ok p
    → (uid ≡ int p.id) × (sub ≡ text p.username)
unfolding principal_from
principal_from-claims (int n) (text t) p h = ground arith
principal_from-claims (int n) _ p h = cc
principal_from-claims _ _ p h = cc

module _ (jwt : Jwt) (settings : TokenSettings) where
  -- the documented behaviour of `jwt.decode` on a token with a text and an int as claims that was
  -- signed with the same key
  abbrev pub Verifies : Type 0
  Verifies =
      (subject : String) (user_id exp : ℕ) (key algorithm : String) (now : ℕ)
      → now ≤ exp
      → (let payload : Claims = record { sub = text subject; uid = int user_id; exp = exp } in
          jwt.decode (jwt.encode payload key algorithm) key (algorithm ∷ []) now ≡ some payload)

  -- Where signed tokens verify: until it expires, a token that was created for a user identifies that user.
  pub get_current_principal-create :
      (subject : String) (user_id issued now : ℕ)
      → Verifies
      → now ≤ issued + settings.access_token_expire_minutes * 60
      → get_current_principal jwt settings
          (some (create_access_token jwt settings subject user_id issued))
          now
        ≡ ok (record { id = user_id; username = subject })
  unfolding get_current_principal create_access_token claims decode_access_token principal_from
  get_current_principal-create subject user_id issued now v h =
      let exp = issued + settings.access_token_expire_minutes * 60 in
      ground (arith, v subject user_id exp settings.jwt_secret_key settings.jwt_algorithm now h)

  -- Nobody is identified without a token that decodes to an int `uid` and a text `sub`, which are
  -- then the caller's.
  pub get_current_principal-decodes :
      (credentials : Option String) (now : ℕ) (p : Principal)
      → get_current_principal jwt settings credentials now ≡ ok p
      → (token : String) × (credentials ≡ some token)
        × ((payload : Claims) × (decode_access_token jwt settings token now ≡ some payload)
            × (payload.uid ≡ int p.id)
            × (payload.sub ≡ text p.username))
  unfolding get_current_principal claims
  get_current_principal-decodes none now p h = cc
  get_current_principal-decodes (some token) now p h =
      elim (Option-cases (decode_access_token jwt settings token now)) [
        | inl refused ↦ absurd (ground (arith, refused))
        | inr (payload, decoded) ↦
            let k : principal_from payload.uid payload.sub ≡ ok p = ground (arith, decoded) in
            let (u, s) = principal_from-claims payload.uid payload.sub p k in
            (token, refl, (payload, decoded, u, s))
      ]
