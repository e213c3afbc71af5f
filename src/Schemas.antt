-- ===== src/Schemas.antt =====
-- app/schemas/prediction.py, app/schemas/auth.py and `ActualPrice` of app/schemas/model.py: what
-- pydantic accepts, as Boolean tests. Bodies of other types are refused before these apply.
pub mod Columns
mod Examples
use Prim.Native.String
use Prim.Native.Char.{code}
use fast_api_project.Prelude.{
  ℕ, zero, suc, ◌+◌, String, Bool, true, false, not, ◌&&◌, ◌||◌, List, [], ◌∷◌, leb, ◌==◌, str_eq,
  if◌then◌else◌,
}
use fast_api_project.Floats.{Floats, lt}

-- `len(text)`
unfoldable pub text_length : String → ℕ
text_length String.[] = 0
text_length (String.◌∷◌ c rest) = suc (text_length rest)

-- whether a text is one of a `Literal`
unfoldable pub one_of : String → List String → Bool
one_of s [] = false
one_of s (t ∷ ts) = str_eq t s || one_of s ts

abbrev pub companies : List String
companies =
    "Ambassador" ∷ "Audi" ∷ "BMW" ∷ "Chevrolet" ∷ "Daewoo" ∷ "Datsun" ∷ "Fiat" ∷ "Force" ∷ "Ford"
    ∷ "Honda" ∷ "Hyundai" ∷ "Isuzu" ∷ "Jaguar" ∷ "Jeep" ∷ "Kia" ∷ "Land" ∷ "MG" ∷ "Mahindra"
    ∷ "Maruti" ∷ "Mercedes-Benz" ∷ "Mitsubishi" ∷ "Nissan" ∷ "Opel" ∷ "Peugeot" ∷ "Renault"
    ∷ "Skoda" ∷ "Tata" ∷ "Toyota" ∷ "Volkswagen" ∷ "Volvo" ∷ []

abbrev pub owners : List String
owners = "First" ∷ "Second" ∷ "Third" ∷ "Fourth & Above" ∷ "Test Drive Car" ∷ []

abbrev pub fuels : List String
fuels = "Petrol" ∷ "Diesel" ∷ "CNG" ∷ "LPG" ∷ []

abbrev pub seller_types : List String
seller_types = "Individual" ∷ "Dealer" ∷ "Trustmark Dealer" ∷ []

abbrev pub transmissions : List String
transmissions = "Manual" ∷ "Automatic" ∷ []

pub record CarFeatures (F : Type 0) : Type 0 where
  pub company : String
  pub year : ℕ
  pub owner : String
  pub fuel : String
  pub seller_type : String
  pub transmission : String
  pub km_driven : F
  pub mileage_mpg : F
  pub engine_cc : F
  pub max_power_bhp : F
  pub torque_nm : F
  pub seats : F

module _ {F : Type 0} (fl : Floats F) where
  -- `gt=0, le=high`
  abbrev pub positive_to : ℕ → F → Bool
  positive_to high x = lt fl (fl.of_nat 0) x && fl.le x (fl.of_nat high)

  -- `ge=low, le=high`
  abbrev pub within : ℕ → ℕ → F → Bool
  within low high x = fl.le (fl.of_nat low) x && fl.le x (fl.of_nat high)

  unfoldable pub valid_numbers : CarFeatures F → Bool
  valid_numbers car =
      positive_to 3000000 car.km_driven
      && within 0 150 car.mileage_mpg
      && positive_to 10000 car.engine_cc
      && positive_to 2000 car.max_power_bhp
      && positive_to 5000 car.torque_nm
      && within 1 20 car.seats

  unfoldable pub valid_car : CarFeatures F → Bool
  unfolding valid_numbers
  valid_car car =
      (leb 1980 car.year && leb car.year 2026)
      && one_of car.company companies
      && one_of car.owner owners
      && one_of car.fuel fuels
      && one_of car.seller_type seller_types
      && one_of car.transmission transmissions
      && valid_numbers car

  unfoldable pub valid_actual_price : F → Bool
  valid_actual_price price = positive_to 100000000 price

-- `[A-Za-z0-9_.-]`
unfoldable pub name_char : ℕ → Bool
name_char c =
    (leb 65 c && leb c 90)
    || (leb 97 c && leb c 122)
    || (leb 48 c && leb c 57)
    || (c == 95)
    || (c == 46)
    || (c == 45)

unfoldable pub name_chars : String → Bool
unfolding name_char
name_chars String.[] = true
name_chars (String.◌∷◌ c rest) = name_char (code c) && name_chars rest

pub record Credentials : Type 0 where
  pub username : String
  pub password : String

-- The bounds on a password count characters, as pydantic does.
unfoldable pub valid_credentials : Credentials → Bool
unfolding text_length name_chars
valid_credentials credentials =
    (leb 3 (text_length credentials.username) && leb (text_length credentials.username) 50)
    && name_chars credentials.username
    && leb 8 (text_length credentials.password)
    && leb (text_length credentials.password) 72
