-- ===== src/Scripts/Seed/Storable.antt =====
-- Every row that scripts/seed_predictions.py makes up fits the table of app/db/models.py.
use fast_api_project.Prelude.{
  ℕ, ◌≤◌, ◌<◌, ◌≡◌, String, List, [], ◌∷◌, length, get_or, str_eq, if◌then◌else◌,
}
use fast_api_project.Floats.{Floats}
use fast_api_project.Schemas.{text_length}
use fast_api_project.Schemas.Columns.{
  company_width, owner_width, fuel_width, seller_type_width, transmission_width,
}
use fast_api_project.Scripts.Seed.{
  Cell, user, text, whole, real, flag, instant, columns, window_seconds,
}

-- the type of a column of `predictions`
pub data ColumnType : Type 0 where
  reference integer float boolean time : ColumnType
  string : (width : ℕ) → ColumnType

abbrev pub column_types : List (String × ColumnType)
column_types =
    ("user_id", reference)
    ∷ ("company", string company_width)
    ∷ ("year", integer)
    ∷ ("owner", string owner_width)
    ∷ ("fuel", string fuel_width)
    ∷ ("seller_type", string seller_type_width)
    ∷ ("transmission", string transmission_width)
    ∷ ("km_driven", float)
    ∷ ("mileage_mpg", float)
    ∷ ("engine_cc", float)
    ∷ ("max_power_bhp", float)
    ∷ ("torque_nm", float)
    ∷ ("seats", float)
    ∷ ("predicted_price", float)
    ∷ ("cache_hit", boolean)
    ∷ ("created_at", time)
    ∷ []

abbrev pub type_of : String → List (String × ColumnType) → ColumnType
type_of column [] = boolean
type_of column ((name, t) ∷ types) = if str_eq name column then t else type_of column types

module _ {F : Type 0} (user_ids : List ℕ) where
  -- A text fits its width, an int fits an Integer column, a user's id is one of those given, and a time lies
  -- in the window. Nothing else fits.
  abbrev pub Fits : ColumnType → Cell F → Type 0
  Fits reference (user id) = (i : ℕ) × (i < length user_ids) × (id ≡ get_or user_ids i 0)
  Fits (string width) (text s) = text_length s ≤ width
  Fits integer (whole n) = n ≤ 2147483647
  Fits float (real x) = Unit
  Fits boolean (flag b) = Unit
  Fits time (instant n) = n < window_seconds
  Fits _ _ = ⊥

  abbrev pub IsStorable : List String → List (Cell F) → Type 0
  IsStorable [] [] = Unit
  IsStorable (column ∷ columns) (c ∷ cells) =
      Fits (type_of column column_types) c × IsStorable columns cells
  IsStorable _ _ = ⊥
