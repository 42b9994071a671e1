-- ===== src/Scan.antt =====
-- src/scan.rs: the value that DuckDB gets for a cell. `scan_value` is a function of a column and a
-- row; an object stands for serde_json's `Map`, with its fields in the order of the map.
pub mod Fences
pub mod Cells
pub mod Borrowed
mod Tests
use Prim.Native.Char.{code}
use duckdb_superhuman_docs.Base.{
  ℕ, Text, String, List, [], ◌∷◌, ◌++◌, Bool, true, false, Option, none, some, codes, is_empty,
  one_of, text_eq, strip_prefix, strip_suffix, any, keep, map, leb, ltb, ◌==◌, ◌&&◌, ◌||◌,
  if◌then◌else◌,
}
use duckdb_superhuman_docs.Base.Ascii.{eq_ignore_ascii_case, to_ascii_lowercase}
use duckdb_superhuman_docs.Json.{
  Value, null, bool, number, string, array, object, Fields, end, field, Serde, items,
}
use duckdb_superhuman_docs.Json.Access.{get_field, as_object, as_array, is_null, unwrap_or}
use duckdb_superhuman_docs.Model.{Column, Row, Cell}
use duckdb_superhuman_docs.Model.Capability.{has_capability, column_system}

-- ``` of Markdown, and the end of a line
abbrev pub fence : Text
fence = codes "```"

abbrev pub newline : Text
newline = 10 ∷ []

unfenced : Text → Option Text
unfenced value = elim (strip_prefix fence value) [
  | none ↦ none
  | some inner ↦ strip_suffix fence inner
]

unfoldable pub unfence_rich_text : Text → Text
unfolding unfenced strip_prefix strip_suffix
unfence_rich_text value = elim (unfenced value) [
  | none ↦ value
  | some inner ↦
      let inner' = unwrap_or inner (strip_prefix newline inner) in
      unwrap_or inner' (strip_suffix newline inner')
]

-- The order of texts, by their characters, as that of their bytes.
text_lt : Text → Text → Bool
text_lt a [] = false
text_lt [] (d ∷ b) = true
text_lt (c ∷ a) (d ∷ b) =
    let later = text_lt a b in if ltb c d then true else if c == d then later else false

-- `a.or_else(|| b).and_then(identity)`
first_of : Option (Option Text) → Option (Option Text) → Option Text
first_of (some a) b = a
first_of none (some b) = b
first_of none none = none

module _ {N F : Type 0} (serde : Serde N F) where
  mutual
    pub scalar_text : Value N → Option Text
    scalar_text null = none
    scalar_text (bool b) = some (serde.value_text (bool b))
    scalar_text (number n) = some (serde.value_text (number n))
    scalar_text (string s) = some (unfence_rich_text s)
    scalar_text (array vs) = none
    scalar_text (object fs) =
        first_of (field_text (codes "name") fs) (field_text (codes "value") fs)

    -- `scalar_text` of the field with a name, if there is one
    pub field_text : Text → Fields N → Option (Option Text)
    field_text name end = none
    field_text name (field k v fs) =
        let here = scalar_text v in
        let later = field_text name fs in if text_eq k name then some here else later

  -- `map.insert(name, value)`: serde_json's map keeps its keys in order.
  insert_field : Text → Value N → Fields N → Fields N
  insert_field name v end = field name v end
  insert_field name v (field k u fs) =
      let later = insert_field name v fs in
      if text_eq name k
      then field name v fs
      else if text_lt name k
      then field name v (field k u fs)
      else field k u later

  -- the object with just the named fields, null where they are missing
  projected : List String → Fields N → Fields N
  projected [] source = end
  projected (name ∷ names) source =
      insert_field (codes name) (unwrap_or null (get_field (codes name) source))
        (projected names source)

  pub projected_object : Value N → List String → Option Text
  projected_object (object source) names = some (serde.value_text (object (projected names source)))
  projected_object value names = none

  -- the characters that are kept of a percentage
  of_number : ℕ → Bool
  of_number c =
      (leb b'0' c && leb c b'9') || (c == b'+') || (c == b'-') || (c == b'.') || (c == b',')

  point : ℕ → ℕ
  point c = if c == b',' then b'.' else c

  -- `percentage.parse::<f64>().ok()?` and what follows
  percentage : Option F → Option Text
  percentage none = none
  percentage (some p) = some (serde.float_text (serde.hundredth p))

  percent_of : Option Text → Option Text
  percent_of none = none
  percent_of (some scalar) = elim (serde.parse_f64 scalar) [
    | some _ ↦ some scalar
    | none ↦
        if any (λ c. c == b'%') scalar
        then percentage (serde.parse_f64 (map point (keep of_number scalar)))
        else none
  ]

  pub normalized_percent : Value N → Option Text
  normalized_percent value = percent_of (scalar_text value)

  duration_of : Option Text → Option Text
  duration_of none = none
  duration_of (some scalar) = elim (serde.parse_f64 scalar) [
    | some _ ↦ some (scalar ++ codes " days")
    | none ↦ some scalar
  ]

  pub normalized_value : Text → Value N → Option Text
  normalized_value format_type value =
      let kind = to_ascii_lowercase format_type in
      if one_of kind ("currency" ∷ [])
      then projected_object value ("currency" ∷ "amount" ∷ [])
      else if one_of kind ("image" ∷ [])
      then projected_object value ("name" ∷ "url" ∷ "height" ∷ "width" ∷ "status" ∷ [])
      else if one_of kind ("person" ∷ [])
      then projected_object value ("name" ∷ "email" ∷ [])
      else if one_of kind ("link" ∷ "hyperlink" ∷ [])
      then projected_object value ("name" ∷ "url" ∷ [])
      else if one_of kind ("lookup" ∷ [])
      then projected_object value ("name" ∷ "url" ∷ "tableId" ∷ "tableUrl" ∷ "rowId" ∷ [])
      else if one_of kind ("duration" ∷ [])
      then duration_of (scalar_text value)
      else if one_of kind ("percent" ∷ [])
      then normalized_percent value
      else if one_of kind (
          "checkbox" ∷ "text" ∷ "email" ∷ "select" ∷ "number" ∷ "slider" ∷ "scale" ∷ "date"
          ∷ "datetime" ∷ "time" ∷ [])
      then scalar_text value
      else some (serde.value_text value)

-- `RustExtScanValue`: null, one text, or the elements of an array, each null or a text.
pub data ScanValue : Type 0 where
  null_value : ScanValue
  -- whether DuckDB has to free the text
  text_value : Bool → Text → ScanValue
  array_value : List (Option Text) → ScanValue

-- the time of the row that a system column shows
system_text : {N : Type 0} → Text → Row N → Text
system_text column_id row =
    if eq_ignore_ascii_case column_id (codes "createdAt")
    then row.created_at
    else if eq_ignore_ascii_case column_id (codes "updatedAt")
    then row.updated_at
    else []

module _ {N F : Type 0} (serde : Serde N F) where
  -- an element of an array
  pub element_text : Text → Value N → Option Text
  element_text format_type value =
      if is_null value then none else normalized_value serde format_type value

  owned : Option Text → ScanValue
  owned none = null_value
  owned (some text) = text_value true text

  elements : Text → Option (List (Value N)) → ScanValue
  elements format_type none = null_value
  elements format_type (some values) = array_value (map (element_text format_type) values)

  -- the value of the cell that was found
  pub cell_text : Column → Value N → ScanValue
  cell_text column value =
      if is_null value
      then null_value
      else if column.is_array
      then elements column.format_type (as_array value)
      else owned (normalized_value serde column.format_type value)

  -- the loop over the cells of the row
  pub scan_cells : Column → List (Cell N) → ScanValue
  scan_cells column [] = null_value
  scan_cells column (cell ∷ cells) =
      let later = scan_cells column cells in
      if eq_ignore_ascii_case cell.column_id column.id then cell_text column cell.value else later

  pub scan_value : Column → Row N → ScanValue
  scan_value column row =
      if has_capability column.capabilities column_system
      then (if is_empty (system_text column.id row)
          then null_value
          else text_value false (system_text column.id row))
      else scan_cells column row.cells
