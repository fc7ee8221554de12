-- ===== src/Json/Fields.antt =====
-- The views of a JSON value, and the lookup of a field.
use axterminator.Prelude.{ℕ, String, Bool, Option, List, and_then}
use axterminator.Prelude.TextMaps

pub record Json : Type 1 where
  pub Value : Type 0
  pub as_object : Value → Option (List (String × Value))
  pub as_str : Value → Option String
  pub as_array : Value → Option (List Value)
  pub as_bool : Value → Option Bool
  -- `Value::Number(n)`, with `n.as_u64()`.
  pub as_number : Value → Option (Option ℕ)

module _ (j : Json) where
  open j use {Value, as_object, as_str}

  unfoldable pub get : Value → String → Option Value
  get v field = and_then (as_object v) (TextMaps.lookup field)

  unfoldable pub get_str : Value → String → Option String
  unfolding get
  get_str v field = and_then (get v field) as_str
