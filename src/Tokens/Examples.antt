-- ===== src/Tokens/Examples.antt =====
-- The checks of app/core/dependencies.py on tokens that spell their claims.
use fast_api_project.Prelude.{◌≡◌, ◌≢◌, refl, some}
use fast_api_project.Exceptions.{ok}
use fast_api_project.Tokens.{decode_access_token, claims, principal_from, get_current_principal}
use fast_api_project.Tokens.Spelled.{ununary, jwt, settings}

key_set : settings.api_key ≢ ""
key_set e = cc

logged_in :
    get_current_principal jwt settings (some "1111;11;asha") 3
    ≡ ok (record { id = 2; username = "asha" })
unfolding get_current_principal claims decode_access_token principal_from ununary
logged_in = refl
