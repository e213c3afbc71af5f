-- ===== src/Routes/Operator/Examples.antt =====
-- Requests of app/api without the operator's key.
use fast_api_project.Prelude.{ℕ, ◌≡◌, ◌≢◌, refl, String, some, Option, [], str_eq}
use fast_api_project.Exceptions.{raise_app, ErrorClass}
use fast_api_project.Database.{failed}
use fast_api_project.Tokens.{Passwords}
use fast_api_project.Tokens.Spelled.{settings}
use fast_api_project.Users.{UserSession}
use fast_api_project.Writer.{init}
use fast_api_project.Repository.Memory.{Memory}
use fast_api_project.Routes.World.{World}
use fast_api_project.Routes.Stub.{guard, call, quiet}
use fast_api_project.Routes.Accounts.{register}
use fast_api_project.Routes.Operator.{register-closed}

key_set : settings.api_key ≢ ""
key_set e = cc

guessed : ◌≢◌ {A = Option String} (some "guess") (some "operator-key")
guessed e = cc

abbrev start : World Memory (Unit {0}) ℕ
start = record {
  database = ([], []);
  cache = quiet;
  writer = init 200 20000;
  predictions = λ c h. 0;
}

abbrev down : UserSession Memory
down = record {
  select_by_username = λ username s. failed s;
  get = λ id s. failed s;
  add = λ username hashed_password s. s;
  commit = λ s. failed s;
  refresh = λ id s. failed s;
}

abbrev passwords : Passwords
passwords = record {
  hash = λ password salt. password;
  verify = λ password hashed. str_eq password hashed;
}

register-closed_example :
    register guard down passwords
      (call "/register")
      (some "guess")
      (record { username = "asha"; password = "monsoon-rain" })
      1
      5000
      start
    ≡ (raise_app ErrorClass.invalid_api_key, start)
register-closed_example =
    register-closed guard down passwords (call "/register") (some "guess")
      (record { username = "asha"; password = "monsoon-rain" }) 1 5000 start refl key_set guessed
