-- ===== src/Schemas/Columns.antt =====
-- What app/schemas accepts fits the columns that app/db/models.py declares.
use fast_api_project.Prelude.{
  ℕ, ◌≤◌, ◌≡◌, refl, String, true, List, [], ◌∷◌, all, leb, eq_iff, arith,
}
use fast_api_project.Floats.{Floats}
use fast_api_project.Schemas.{
  text_length, one_of, companies, owners, fuels, seller_types, transmissions, CarFeatures,
  valid_car,
}

-- the widths of the text columns of `predictions`, and that of `users.username`
abbrev pub company_width : ℕ
company_width = 50

abbrev pub owner_width : ℕ
owner_width = 20

abbrev pub fuel_width : ℕ
fuel_width = 10

abbrev pub seller_type_width : ℕ
seller_type_width = 20

abbrev pub transmission_width : ℕ
transmission_width = 10

abbrev pub username_width : ℕ
username_width = 50

pub one_of-all :
    (width : ℕ) (s : String) (ts : List String)
    → all (λ t. leb (text_length t) width) ts ≡ true
    → one_of s ts ≡ true
    → text_length s ≤ width
unfolding one_of
one_of-all width s [] a h = cc
one_of-all width s (t ∷ ts) a h = ground (arith, eq_iff t s, one_of-all width s ts)

-- A car that the API accepts is never too long for a column of the prediction log, and its year
-- fits an Integer column.
pub valid_car-fits :
    {F : Type 0} (fl : Floats F) (car : CarFeatures F)
    → valid_car fl car ≡ true
    → (text_length car.company ≤ company_width)
      × (text_length car.owner ≤ owner_width)
      × (text_length car.fuel ≤ fuel_width)
      × (text_length car.seller_type ≤ seller_type_width)
      × (text_length car.transmission ≤ transmission_width)
      × (car.year ≤ 2147483647)
unfolding valid_car text_length
valid_car-fits fl car h = (
  one_of-all company_width car.company companies refl (ground arith),
  one_of-all owner_width car.owner owners refl (ground arith),
  one_of-all fuel_width car.fuel fuels refl (ground arith),
  one_of-all seller_type_width car.seller_type seller_types refl (ground arith),
  one_of-all transmission_width car.transmission transmissions refl (ground arith),
  ground arith,
)
