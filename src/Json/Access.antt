-- ===== src/Json/Access.antt =====
-- `Value::get`, `as_str`, `as_bool`, `as_array`, `as_object`, `is_null` and their kin.
use duckdb_superhuman_docs.Base.{
  Text, List, [], ◌∷◌, Option, none, some, Bool, true, false, String, codes, text_eq, if◌then◌else◌,
}
use duckdb_superhuman_docs.Json.Values.{
  Value, null, bool, string, array, object, Fields, end, field, items,
}

module _ {N : Type 0} where
  -- `map.get(name)`
  unfoldable pub get_field : Text → Fields N → Option (Value N)
  unfolding text_eq
  get_field name end = none
  get_field name (field k v fs) = if text_eq k name then some v else get_field name fs

  -- `value.get(name)`
  unfoldable pub get : String → Value N → Option (Value N)
  unfolding get_field
  get name (object fs) = get_field (codes name) fs
  get name v = none

  abbrev pub as_str : Value N → Option Text
  as_str (string s) = some s
  as_str v = none

  abbrev pub as_bool : Value N → Option Bool
  as_bool (bool b) = some b
  as_bool v = none

  abbrev pub as_array : Value N → Option (List (Value N))
  as_array (array vs) = some (items vs)
  as_array v = none

  abbrev pub as_object : Value N → Option (Fields N)
  as_object (object fs) = some fs
  as_object v = none

  abbrev pub is_null : Value N → Bool
  is_null null = true
  is_null v = false

  abbrev pub is_array : Value N → Bool
  is_array (array vs) = true
  is_array v = false

  abbrev pub is_object : Value N → Bool
  is_object (object fs) = true
  is_object v = false

  abbrev filtered {ℓ} : {A : Type ℓ} → (Value N → Option A) → Option (Value N) → Option A
  filtered f none = none
  filtered f (some v) = f v

  -- `value.get(name).and_then(Value::as_str)`, and likewise below
  unfoldable pub get_str : String → Value N → Option Text
  unfolding get
  get_str name v = filtered as_str (get name v)

  unfoldable pub get_bool : String → Value N → Option Bool
  unfolding get
  get_bool name v = filtered as_bool (get name v)

  unfoldable pub get_array : String → Value N → Option (List (Value N))
  unfolding get
  get_array name v = filtered as_array (get name v)

  unfoldable pub get_object : String → Value N → Option (Fields N)
  unfolding get
  get_object name v = filtered as_object (get name v)

-- `option.unwrap_or(default)`
abbrev pub unwrap_or {ℓ} : {A : Type ℓ} → A → Option A → A
unwrap_or d none = d
unwrap_or d (some a) = a

-- `option.filter(|value| !value.is_empty())`
abbrev pub non_empty : Option Text → Option Text
non_empty none = none
non_empty (some []) = none
non_empty (some (c ∷ s)) = some (c ∷ s)
