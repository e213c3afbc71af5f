-- ===== src/Service/Frame.antt =====
-- `FEATURE_ORDER` and `_run_inference` of app/services/model_service.py: the row that the pipeline is given. The
-- pipeline is a parameter, and a cell of the frame is what pandas makes of a value, NaN where a key is missing.
use fast_api_project.Prelude.{
  ℕ, ◌≡◌, refl, sym, ap, ◌∙◌, String, Option, none, some, List, [], ◌∷◌, map, str_eq, if◌then◌else◌,
}
use mathlib.Core.Option.{some-injective}
use fast_api_project.Exceptions.{Result}
use fast_api_project.Schemas.{CarFeatures}

pub data Value (F : Type 0) : Type 0 where
  nan : Value F
  text : String → Value F
  whole : ℕ → Value F
  real : F → Value F

abbrev pub feature_order : List String
feature_order =
    "company" ∷ "year" ∷ "owner" ∷ "fuel" ∷ "seller_type" ∷ "transmission" ∷ "km_driven"
    ∷ "mileage_mpg" ∷ "engine_cc" ∷ "max_power_bhp" ∷ "torque_nm" ∷ "seats" ∷ []

unfoldable pub value_of : {F : Type 0} → List (String × Value F) → String → Value F
value_of [] name = nan
value_of ((key, value) ∷ features) name = if str_eq key name then value else value_of features name

-- the one row of the frame
unfoldable pub frame_row : {F : Type 0} → List (String × Value F) → List (Value F)
unfolding value_of
frame_row features = map (value_of features) feature_order

-- `_run_inference`
abbrev pub run_inference :
    {F Price : Type 0}
    → (model : List (Value F) → Result Price) → List (String × Value F)
    → Result Price
run_inference model features = model (frame_row features)

-- `car.model_dump()`, in the order of the fields
abbrev pub model_dump : {F : Type 0} → CarFeatures F → List (String × Value F)
model_dump car =
    ("company", text car.company)
    ∷ ("year", whole car.year)
    ∷ ("owner", text car.owner)
    ∷ ("fuel", text car.fuel)
    ∷ ("seller_type", text car.seller_type)
    ∷ ("transmission", text car.transmission)
    ∷ ("km_driven", real car.km_driven)
    ∷ ("mileage_mpg", real car.mileage_mpg)
    ∷ ("engine_cc", real car.engine_cc)
    ∷ ("max_power_bhp", real car.max_power_bhp)
    ∷ ("torque_nm", real car.torque_nm)
    ∷ ("seats", real car.seats)
    ∷ []

-- the car that a row holds
car_of : {F : Type 0} → List (Value F) → Option (CarFeatures F)
car_of
      (text company
        ∷ whole year
        ∷ text owner
        ∷ text fuel
        ∷ text seller_type
        ∷ text transmission
        ∷ real km_driven
        ∷ real mileage_mpg
        ∷ real engine_cc
        ∷ real max_power_bhp
        ∷ real torque_nm
        ∷ real seats
        ∷ []) =
    some (record {
      company = company;
      year = year;
      owner = owner;
      fuel = fuel;
      seller_type = seller_type;
      transmission = transmission;
      km_driven = km_driven;
      mileage_mpg = mileage_mpg;
      engine_cc = engine_cc;
      max_power_bhp = max_power_bhp;
      torque_nm = torque_nm;
      seats = seats;
    })
car_of _ = none

car_of-frame_row :
    {F : Type 0} (car : CarFeatures F) → car_of (frame_row (model_dump car)) ≡ some car
unfolding frame_row value_of car_of
car_of-frame_row car = refl

-- The pipeline knows two cars apart by the row that it is given: no feature of a car is lost on the way.
pub frame_row_inj :
    {F : Type 0} (car other : CarFeatures F)
    → frame_row (model_dump car) ≡ frame_row (model_dump other)
    → car ≡ other
frame_row_inj car other e =
    some-injective car other (sym (car_of-frame_row car) ∙ ap car_of e ∙ car_of-frame_row other)
