-- ===== src/Scripts/Cars.antt =====
-- The cars that scripts/load_test.py and scripts/drift_demo.py make up and send.
pub mod Draws
pub mod Valid
use fast_api_project.Prelude.{ℕ, String, List, [], ◌∷◌}
use fast_api_project.Floats.{Floats}
use fast_api_project.Schemas.{CarFeatures, companies, owners, fuels, seller_types, transmissions}
use fast_api_project.Scripts.{Rng, choice, tenths}

abbrev pub engine_sizes : List ℕ
engine_sizes = 800 ∷ 1000 ∷ 1200 ∷ 1500 ∷ 2000 ∷ 2500 ∷ []

abbrev pub seat_counts : List ℕ
seat_counts = 4 ∷ 5 ∷ 7 ∷ []

abbrev pub luxury : List String
luxury = "BMW" ∷ "Audi" ∷ "Mercedes-Benz" ∷ "Jaguar" ∷ "Volvo" ∷ []

abbrev pub large_engines : List ℕ
large_engines = 2000 ∷ 2500 ∷ 3000 ∷ []

module _ {F S : Type 0} (fl : Floats F) (rng : Rng F S) where
  unfoldable pub build_vector : S → CarFeatures F × S
  build_vector s =
      let company = choice fl rng "" companies s in
      let year = rng.between 1995 2020 company.1 in
      let owner = choice fl rng "" owners year.1 in
      let fuel = choice fl rng "" fuels owner.1 in
      let seller_type = choice fl rng "" seller_types fuel.1 in
      let transmission = choice fl rng "" transmissions seller_type.1 in
      let km_driven = rng.between 1000 300000 transmission.1 in
      let mileage_mpg = tenths fl rng 10 90 km_driven.1 in
      let engine_cc = choice fl rng 0 engine_sizes mileage_mpg.1 in
      let max_power_bhp = tenths fl rng 40 250 engine_cc.1 in
      let torque_nm = tenths fl rng 60 400 max_power_bhp.1 in
      let seats = choice fl rng 0 seat_counts torque_nm.1 in
      (
        record {
          company = company.0;
          year = year.0;
          owner = owner.0;
          fuel = fuel.0;
          seller_type = seller_type.0;
          transmission = transmission.0;
          km_driven = fl.of_nat km_driven.0;
          mileage_mpg = mileage_mpg.0;
          engine_cc = fl.of_nat engine_cc.0;
          max_power_bhp = max_power_bhp.0;
          torque_nm = torque_nm.0;
          seats = fl.of_nat seats.0;
        },
        seats.1,
      )

  unfoldable pub sample_shifted : S → CarFeatures F × S
  sample_shifted s =
      let company = choice fl rng "" luxury s in
      let year = rng.between 2018 2020 company.1 in
      let km_driven = rng.between 1000 20000 year.1 in
      let mileage_mpg = tenths fl rng 12 22 km_driven.1 in
      let engine_cc = choice fl rng 0 large_engines mileage_mpg.1 in
      let max_power_bhp = tenths fl rng 180 250 engine_cc.1 in
      let torque_nm = tenths fl rng 300 400 max_power_bhp.1 in
      (
        record {
          company = company.0;
          year = year.0;
          owner = "First";
          fuel = "Diesel";
          seller_type = "Dealer";
          transmission = "Automatic";
          km_driven = fl.of_nat km_driven.0;
          mileage_mpg = mileage_mpg.0;
          engine_cc = fl.of_nat engine_cc.0;
          max_power_bhp = max_power_bhp.0;
          torque_nm = torque_nm.0;
          seats = fl.of_nat 5;
        },
        torque_nm.1,
      )
