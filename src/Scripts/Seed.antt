-- ===== src/Scripts/Seed.antt =====
-- scripts/seed_predictions.py: the rows it makes up, and its two ways to load them. A row is its cells in
-- the order of `COLUMNS`, and `created_at` is in seconds from the start of the window. The connection is
-- what is sent over it; timing and printing are left out.
mod Examples
pub mod Loads
pub mod Accounts
pub mod Storable
pub mod Run
pub mod Sends
pub mod Fills
use fast_api_project.Prelude.{
  ℕ, zero, suc, ◌+◌, ◌-◌, ◌*◌, min, String, Bool, true, false, Option, none, some, List, [], ◌∷◌,
  ◌++◌, ltb, if◌then◌else◌,
}
use fast_api_project.Floats.{Floats}
use fast_api_project.Schemas.{companies, owners, fuels, seller_types, transmissions}
use fast_api_project.Scripts.{Rng, choice, tenths}
use fast_api_project.Scripts.Cars.{engine_sizes, seat_counts}

-- A cell that is sent: a user's id, a text, an int, a float, a Boolean, or a time.
pub data Cell (F : Type 0) : Type 0 where
  user : ℕ → Cell F
  text : String → Cell F
  whole : ℕ → Cell F
  real : F → Cell F
  flag : Bool → Cell F
  instant : ℕ → Cell F

-- `COLUMNS`
abbrev pub columns : List String
columns =
    "user_id" ∷ "company" ∷ "year" ∷ "owner" ∷ "fuel" ∷ "seller_type" ∷ "transmission" ∷ "km_driven"
    ∷ "mileage_mpg" ∷ "engine_cc" ∷ "max_power_bhp" ∷ "torque_nm" ∷ "seats" ∷ "predicted_price"
    ∷ "cache_hit" ∷ "created_at" ∷ []

-- `WINDOW_DAYS * 86_400`
abbrev pub window_seconds : ℕ
window_seconds = 730 * 86400

module _ {F R : Type 0} (fl : Floats F) (rng : Rng F R) (below_0_6 : R → Bool × R)
    (user_ids : List ℕ) where
  -- One round of `generate`; `below_0_6` is `rng.random() < 0.6`.
  unfoldable pub generate_row : R → List (Cell F) × R
  generate_row r =
      let user_id = choice fl rng 0 user_ids r in
      let company = choice fl rng "" companies user_id.1 in
      let year = rng.between 1995 2020 company.1 in
      let owner = choice fl rng "" owners year.1 in
      let fuel = choice fl rng "" fuels owner.1 in
      let seller_type = choice fl rng "" seller_types fuel.1 in
      let transmission = choice fl rng "" transmissions seller_type.1 in
      let km_driven = rng.between 1000 300000 transmission.1 in
      let mileage_mpg = tenths fl rng 10 90 km_driven.1 in
      let engine_cc = choice fl rng 0 engine_sizes mileage_mpg.1 in
      let max_power_bhp = tenths fl rng 40 250 engine_cc.1 in
      let torque_nm = tenths fl rng 60 400 max_power_bhp.1 in
      let seats = choice fl rng 0 seat_counts torque_nm.1 in
      let price = rng.uniform 50000 3000000 seats.1 in
      let cache_hit = below_0_6 price.1 in
      let created_at = rng.below window_seconds cache_hit.1 in
      (
        user user_id.0
            ∷ text company.0
            ∷ whole year.0
            ∷ text owner.0
            ∷ text fuel.0
            ∷ text seller_type.0
            ∷ text transmission.0
            ∷ real (fl.of_nat km_driven.0)
            ∷ real mileage_mpg.0
            ∷ real (fl.of_nat engine_cc.0)
            ∷ real max_power_bhp.0
            ∷ real torque_nm.0
            ∷ real (fl.of_nat seats.0)
            ∷ real (fl.round price.0 2)
            ∷ flag cache_hit.0
            ∷ instant created_at.0
            ∷ [],
        created_at.1,
      )

  unfoldable pub generate : ℕ → R → List (List (Cell F)) × R
  generate zero r = ([], r)
  generate (suc count) r =
      let row = generate_row r in let rest = generate count row.1 in (row.0 ∷ rest.0, rest.1)

  abbrev pub copy_first :
      List (List (Cell F))
      → Option (List (List (List (Cell F))) × R)
      → Option (List (List (List (Cell F))) × R)
  copy_first records none = none
  copy_first records (some (batches, r)) = some (records ∷ batches, r)

  -- The loop of `copy_load`, on fuel: the batches that are copied. `none` where the fuel runs out.
  unfoldable pub copy_load :
      (fuel total chunk loaded : ℕ) → R → Option (List (List (List (Cell F))) × R)
  unfolding generate
  copy_load zero total chunk loaded r = if ltb loaded total then none else some ([], r)
  copy_load (suc fuel) total chunk loaded r =
      let size = min chunk (total - loaded) in
      let records = generate size r in
      let rest = copy_load fuel total chunk (loaded + size) records.1 in
      if ltb loaded total then copy_first records.0 rest else some ([], r)

  -- `insert_load`: the rows that are inserted, one by one
  unfoldable pub insert_load : (total : ℕ) → R → List (List (Cell F)) × R
  unfolding generate
  insert_load total r = generate total r
