-- ===== src/Schemas/Examples.antt =====
-- The tests of app/schemas on a request.
use fast_api_project.Prelude.{ℕ, ◌+◌, ◌-◌, ◌*◌, ◌/◌, ◌≡◌, refl, true, false, leb}
use fast_api_project.Floats.{Floats}
use fast_api_project.Schemas.{
  text_length, one_of, CarFeatures, valid_numbers, valid_car, name_char, name_chars,
  valid_credentials,
}

abbrev whole : Floats ℕ
whole = record {
  le = leb;
  add = λ a b. a + b;
  sub = λ a b. a - b;
  mul = λ a b. a * b;
  div = λ a b. a / b;
  log = λ a. a - 1;
  abs = λ a. a;
  of_nat = λ n. n;
  ratio = λ a b. a / b;
  round = λ a n. a;
  repr = λ a. "";
}

abbrev maruti : CarFeatures ℕ
maruti = record {
  company = "Maruti";
  year = 2015;
  owner = "Second";
  fuel = "Petrol";
  seller_type = "Individual";
  transmission = "Automatic";
  km_driven = 200000;
  mileage_mpg = 55;
  engine_cc = 1250;
  max_power_bhp = 80;
  torque_nm = 200;
  seats = 5;
}

program : Unit {0}
unfolding text_length one_of valid_numbers valid_car name_char name_chars valid_credentials
program = tt

maruti-valid : valid_car whole maruti ≡ true
unfolding program
maruti-valid = refl

unseen-refused : valid_car whole (record maruti { company = "Tesla" }) ≡ false
unfolding program
unseen-refused = refl

asha-valid : valid_credentials (record { username = "asha_07"; password = "monsoon-rain" }) ≡ true
unfolding program
asha-valid = refl
