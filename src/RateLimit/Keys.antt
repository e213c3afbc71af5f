-- ===== src/RateLimit/Keys.antt =====
-- The keys of app/core/rate_limit.py tell the windows apart, whatever the client and the route hold.
use Prim.Native.String
use text.Mathlib.TextLemmas.{append_assoc}
use fast_api_project.Prelude.{ℕ, ◌≡◌, sym, ◌∙◌, ap, String, false}
use fast_api_project.Texts.{has_colon, last_field, last_field-append}
use fast_api_project.Tokens.{Jwt, TokenSettings}
use fast_api_project.RateLimit.{Request, Limits, client_id, route_path, bucket_of, rate_limit_key}

module _ (jwt : Jwt) (settings : TokenSettings) (lower : String → String) (decimal : ℕ → String)
    (limits : Limits) where
  last_field-rate_limit_key :
      (request : Request) (now : ℕ)
      → has_colon (decimal (bucket_of limits now)) ≡ false
      → last_field (rate_limit_key jwt settings lower decimal limits request now)
        ≡ decimal (bucket_of limits now)
  unfolding rate_limit_key
  last_field-rate_limit_key request now h =
      let d = decimal (bucket_of limits now) in
      let client = client_id jwt settings lower decimal request now in
      let path = route_path request in
      let tail = String.◌++◌ ":" d in
      ap last_field (
        ap (String.◌++◌ "ratelimit:") (
          ap (String.◌++◌ client) (sym (append_assoc ":" path tail))
          ∙ sym (append_assoc client (String.◌++◌ ":" path) tail))
        ∙ sym (append_assoc "ratelimit:" (String.◌++◌ client (String.◌++◌ ":" path)) tail))
      ∙ last_field-append _ d h

  -- one key, one window
  pub rate_limit_key-bucket :
      (r r' : Request) (now now' : ℕ)
      → ((n : ℕ) → has_colon (decimal n) ≡ false)
      → ((a b : ℕ) → decimal a ≡ decimal b → a ≡ b)
      → rate_limit_key jwt settings lower decimal limits r now
        ≡ rate_limit_key jwt settings lower decimal limits r' now'
      → bucket_of limits now ≡ bucket_of limits now'
  rate_limit_key-bucket r r' now now' plain inj e = inj _ _ (
      sym (last_field-rate_limit_key r now (plain _))
      ∙ ap last_field e
      ∙ last_field-rate_limit_key r' now' (plain _))
