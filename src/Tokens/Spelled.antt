-- ===== src/Tokens/Spelled.antt =====
-- A JWT stand-in for examples: a token spells its claims. It does what is asked of a JWT library.
use fast_api_project.Prelude.{
  ℕ, zero, suc, ◌≡◌, refl, ap, String, false, none, some, str_eq, if◌then◌else◌, ltb, arith,
}
use fast_api_project.Tokens.{Claims, int, text, Jwt, TokenSettings}
use fast_api_project.Tokens.Checks.{Verifies}

-- a number in unary before a text, and the two of them back
unfoldable pub unary : ℕ → String → String
unary zero t = String.◌∷◌ ";" t
unary (suc n) t = String.◌∷◌ "1" (unary n t)

unfoldable pub ununary : String → ℕ × String
ununary String.[] = (0, "")
ununary (String.◌∷◌ c t) =
    let (n, rest) = ununary t in if str_eq (String.◌∷◌ c "") "1" then (suc n, rest) else (0, t)

ununary-unary : (n : ℕ) (t : String) → ununary (unary n t) ≡ (n, t)
unfolding ununary unary
ununary-unary zero t = refl
ununary-unary (suc n) t = ap (λ r. (suc r.0, r.1)) (ununary-unary n t)

abbrev pub spell : Claims → String
spell payload = elim payload.uid [
  | int n ↦ elim payload.sub [ text t ↦ unary payload.exp (unary n t) | _ ↦ "" ]
  | _ ↦ ""
]

abbrev pub read : String → Claims
read token =
    let (exp, rest) = ununary token in
    let (n, t) = ununary rest in record { sub = text t; uid = int n; exp = exp }

abbrev pub jwt : Jwt
jwt = record {
  encode = λ payload key algorithm. spell payload;
  decode = λ token key algorithms now. if ltb (read token).exp now then none else some (read token);
}

abbrev pub settings : TokenSettings
settings = record {
  api_key = "operator-key";
  jwt_secret_key = "secret";
  jwt_algorithm = "HS256";
  access_token_expire_minutes = 30;
  allow_public_registration = false;
}

pub jwt-Verifies : Verifies jwt settings
jwt-Verifies subject user_id exp key algorithm now h =
    rw (ununary-unary exp (unary user_id subject), ununary-unary user_id subject) (ground arith)
