-- ===== src/Scripts/Cars/Valid.antt =====
-- The API accepts every car that the scripts send.
use fast_api_project.Prelude.{◌≡◌, refl, true, ◌&&◌, all, leb, arith}
use fast_api_project.Floats.{Floats}
use fast_api_project.Schemas.{
  CarFeatures, companies, owners, fuels, seller_types, transmissions, one_of, positive_to, within,
  valid_numbers, valid_car,
}
use fast_api_project.Scripts.{Rng, IsDocumented, choice, tenths}
use fast_api_project.Scripts.Cars.{
  engine_sizes, seat_counts, luxury, large_engines, build_vector, sample_shifted,
}
use fast_api_project.Scripts.Cars.Draws.{
  both, all-get_or, of_nat-within, tenths-within, tenths-positive_to, between-within,
  between-positive_to, choice-one_of, choice-positive_to, choice-within,
}

module _ {F S : Type 0} (fl : Floats F) (rng : Rng F S) (doc : IsDocumented fl rng) where
  valid_car-intro :
      (car : CarFeatures F)
      → (leb 1980 car.year && leb car.year 2026) ≡ true
      → one_of car.company companies ≡ true
      → one_of car.owner owners ≡ true
      → one_of car.fuel fuels ≡ true
      → one_of car.seller_type seller_types ≡ true
      → one_of car.transmission transmissions ≡ true
      → valid_numbers fl car ≡ true
      → valid_car fl car ≡ true
  unfolding valid_car
  valid_car-intro car year company owner fuel seller_type transmission numbers =
      both _ _
        (both _ _ (both _ _ (both _ _ (both _ _ (both _ _ year company) owner) fuel) seller_type)
          transmission)
        numbers

  valid_numbers-intro :
      (car : CarFeatures F)
      → positive_to fl 3000000 car.km_driven ≡ true
      → within fl 0 150 car.mileage_mpg ≡ true
      → positive_to fl 10000 car.engine_cc ≡ true
      → positive_to fl 2000 car.max_power_bhp ≡ true
      → positive_to fl 5000 car.torque_nm ≡ true
      → within fl 1 20 car.seats ≡ true
      → valid_numbers fl car ≡ true
  unfolding valid_numbers
  valid_numbers-intro car km mileage engine power torque seats =
      both _ _ (both _ _ (both _ _ (both _ _ (both _ _ km mileage) engine) power) torque) seats

  -- With the documented random generator, the API accepts every car that the load test draws.
  pub build_vector-valid : (s : S) → valid_car fl (build_vector fl rng s).0 ≡ true
  unfolding build_vector
  build_vector-valid s =
      let year = (choice fl rng "" companies s).1 in
      let owner = (rng.between 1995 2020 year).1 in
      let fuel = (choice fl rng "" owners owner).1 in
      let seller_type = (choice fl rng "" fuels fuel).1 in
      let transmission = (choice fl rng "" seller_types seller_type).1 in
      let km = (choice fl rng "" transmissions transmission).1 in
      let mileage = (rng.between 1000 300000 km).1 in
      let engine = (tenths fl rng 10 90 mileage).1 in
      let power = (choice fl rng 0 engine_sizes engine).1 in
      let torque = (tenths fl rng 40 250 power).1 in
      let seats = (tenths fl rng 60 400 torque).1 in
      valid_car-intro _
        (between-within fl rng doc 1980 1995 2020 2026 year (omega arith) (omega arith)
          (omega arith))
        (choice-one_of fl rng doc companies s (omega arith))
        (choice-one_of fl rng doc owners owner (omega arith))
        (choice-one_of fl rng doc fuels fuel (omega arith))
        (choice-one_of fl rng doc seller_types seller_type (omega arith))
        (choice-one_of fl rng doc transmissions transmission (omega arith))
        (valid_numbers-intro _
          (between-positive_to fl rng doc 1000 300000 3000000 km (omega arith) (omega arith)
            (omega arith))
          (tenths-within fl rng doc 0 10 90 150 mileage (omega arith) (omega arith) (omega arith))
          (choice-positive_to fl rng doc engine_sizes 10000 engine (omega arith) refl)
          (tenths-positive_to fl rng doc 40 250 2000 power (omega arith) (omega arith)
            (omega arith))
          (tenths-positive_to fl rng doc 60 400 5000 torque (omega arith) (omega arith)
            (omega arith))
          (choice-within fl rng doc seat_counts 1 20 seats (omega arith) refl))

  owner-listed : one_of "First" owners ≡ true
  unfolding one_of
  owner-listed = refl

  fuel-listed : one_of "Diesel" fuels ≡ true
  unfolding one_of
  fuel-listed = refl

  seller_type-listed : one_of "Dealer" seller_types ≡ true
  unfolding one_of
  seller_type-listed = refl

  transmission-listed : one_of "Automatic" transmissions ≡ true
  unfolding one_of
  transmission-listed = refl

  luxury-listed : all (λ company. one_of company companies) luxury ≡ true
  unfolding one_of
  luxury-listed = refl

  -- With the documented random generator, the API accepts every car of the shifted traffic.
  pub sample_shifted-valid : (s : S) → valid_car fl (sample_shifted fl rng s).0 ≡ true
  unfolding sample_shifted
  sample_shifted-valid s =
      let year = (choice fl rng "" luxury s).1 in
      let km = (rng.between 2018 2020 year).1 in
      let mileage = (rng.between 1000 20000 km).1 in
      let engine = (tenths fl rng 12 22 mileage).1 in
      let power = (choice fl rng 0 large_engines engine).1 in
      let torque = (tenths fl rng 180 250 power).1 in
      valid_car-intro _
        (between-within fl rng doc 1980 2018 2020 2026 year (omega arith) (omega arith)
          (omega arith))
        (all-get_or (λ company. one_of company companies) luxury _ ""
          (doc.below_lt 5 s (omega arith)) luxury-listed)
        owner-listed fuel-listed seller_type-listed transmission-listed
        (valid_numbers-intro _
          (between-positive_to fl rng doc 1000 20000 3000000 km (omega arith) (omega arith)
            (omega arith))
          (tenths-within fl rng doc 0 12 22 150 mileage (omega arith) (omega arith) (omega arith))
          (choice-positive_to fl rng doc large_engines 10000 engine (omega arith) refl)
          (tenths-positive_to fl rng doc 180 250 2000 power (omega arith) (omega arith)
            (omega arith))
          (tenths-positive_to fl rng doc 300 400 5000 torque (omega arith) (omega arith)
            (omega arith))
          (of_nat-within fl rng doc 1 20 5 (omega arith) (omega arith)))
