-- ===== src/Mutation/Payload.antt =====
-- src/mutation/payload.rs: from DuckDB's values to the edits that the service accepts. Products and
-- sums of `usize` wrap, and a slice out of range panics.
pub mod Cells
pub mod Rows
pub mod Values
mod Parts
mod Sent
mod Tests
use duckdb_superhuman_docs.Base.{
  ℕ, zero, suc, ◌+◌, ◌*◌, ◌%◌, ◌^◌, Text, List, [], ◌∷◌, ◌++◌, Bool, true, false, Option, none,
  some, Result, ok, err, and_then, map_err, ok_or, collect, codes, String, is_empty, not, ◌&&◌,
  ◌||◌, ◌==◌, ltb, leb, length, take, drop, one_of, if◌then◌else◌, ◌-◌, invalid_composite,
  unsupported_input_type, null_in_array, missing_writable_field, not_primitive, expects_array,
  not_representable, not_scalar, update_to_null, insert_unsupported, invalid_insert_shape,
  update_unsupported, invalid_update_shape, null_query, slice_panic,
}
use duckdb_superhuman_docs.Base.Ascii.{to_ascii_lowercase}
use duckdb_superhuman_docs.Base.Decimal.{to_string}
use duckdb_superhuman_docs.Json.{
  Value, Serde, null, bool, number, string, array, object, ℤ, pos, negsuc,
}
use duckdb_superhuman_docs.Json.Access.{get, as_array, as_object, is_null, is_array, is_object}
use duckdb_superhuman_docs.Model.{Column}
use duckdb_superhuman_docs.Model.Capability.{
  has_capability, column_editable, table_insert, table_update,
}
use duckdb_superhuman_docs.Ffi.{InputValue, WriteColumn, input_null, input_json, ref_from_raw}
use duckdb_superhuman_docs.Sdk.Calls.{
  ScalarValue, boolean, text, CellValue, scalar, flat_list, CellEdit, RowEdit, RowsUpsert,
  RowUpdate,
}

-- `field.is_null() || field.as_str() == Some("")`
blank : {N : Type 0} → Value N → Bool
blank null = true
blank (string s) = is_empty s
blank v = false

-- the first of the fields that the object has and that is not blank
first_field : {N : Type 0} → Value N → List String → Option (Value N)
first_field value [] = none
first_field value (field ∷ fields) = elim (get field value) [
  | none ↦ first_field value fields
  | some v ↦ elim (blank v) [ true ↦ first_field value fields | false ↦ some v ]
]

object_field : {N : Type 0} → Value N → List String → Option (Value N)
object_field (object fs) fields = first_field (object fs) fields
object_field value fields = none

-- the `match` of `simple_cell_value` on the lower-case format
writable_value : {N : Type 0} → Text → Value N → Option (Value N)
writable_value kind value =
    if one_of kind ("currency" ∷ [])
    then object_field value ("amount" ∷ [])
    else if one_of kind ("image" ∷ [])
    then object_field value ("url" ∷ [])
    else if one_of kind ("person" ∷ [])
    then object_field value ("email" ∷ "name" ∷ [])
    else if one_of kind ("link" ∷ "hyperlink" ∷ [])
    then object_field value ("url" ∷ [])
    else if one_of kind ("lookup" ∷ [])
    then object_field value ("rowId" ∷ "name" ∷ [])
    else some value

-- the last test of `simple_cell_value`
primitive_only : {N : Type 0} → Text → Value N → Result (Value N)
primitive_only format_type simple =
    if is_object simple || is_array simple || is_null simple
    then err (not_primitive format_type)
    else ok simple

pub simple_cell_value : {N : Type 0} → Text → Value N → Result (Value N)
simple_cell_value format_type value =
    if is_null value
    then err null_in_array
    else and_then
        (ok_or (missing_writable_field format_type)
          (writable_value (to_ascii_lowercase format_type) value))
        (primitive_only format_type)

-- `i64::to_string`
pub i64_text : ℤ → Text
i64_text (pos n) = to_string n
i64_text (negsuc n) = b'-' ∷ to_string (suc n)

pub bool_text : Bool → Text
bool_text true = codes "true"
bool_text false = codes "false"

-- arithmetic on `usize`, which wraps
abbrev pub usize : ℕ → ℕ
usize n = n % 2 ^ 64

-- `&values[start..stop]`
pub slice : {A : Type 0} → List A → ℕ → ℕ → Result (List A)
slice values start stop =
    if leb start stop && leb stop (length values)
    then ok (take (stop - start) (drop start values))
    else err slice_panic

module _ {N F : Type 0} (serde : Serde N F) where
  pub input_value_json : InputValue F → Result (Value N)
  input_value_json value =
      if value.value_type == 0
      then ok null
      else if value.value_type == 1
      then ok (bool value.bool_value)
      else if value.value_type == 2
      then ok (serde.json_i64 value.int_value)
      else if value.value_type == 3
      then ok (serde.json_u64 value.uint_value)
      else if value.value_type == 4
      then ok (serde.json_f64 value.double_value)
      else if value.value_type == 5
      then ok (string value.string_value)
      else if value.value_type == input_json
      then map_err invalid_composite (serde.from_str value.string_value)
      else err (unsupported_input_type value.value_type)

  pub scalar_value : Value N → Result (ScalarValue F)
  scalar_value (bool b) = ok (boolean b)
  scalar_value (number n) =
      and_then (ok_or (not_representable (serde.value_text (number n))) (serde.as_f64 n))
        λ f. ok (ScalarValue.number f)
  scalar_value (string s) = ok (text s)
  scalar_value value = err (not_scalar (serde.value_text value))

  -- one element, or the one value of a scalar column
  pub element_value : Text → Value N → Result (ScalarValue F)
  element_value format_type value = and_then (simple_cell_value format_type value) scalar_value

  pub cell_value : Column → InputValue F → Result (CellValue F)
  cell_value column input = and_then (input_value_json input) λ value.
      if column.is_array
      then (and_then (ok_or (expects_array column.name (serde.value_text value)) (as_array value))
          λ values.
            and_then (collect (element_value column.format_type) values)
              λ list. ok (flat_list list))
      else and_then (element_value column.format_type value) λ one. ok (scalar one)

  -- `cells.push(…)` for one column, from its handle on
  pub cell_edit : WriteColumn → InputValue F → Result (CellEdit F)
  cell_edit write input = and_then (ref_from_raw write.handle "column") λ column.
      and_then (cell_value column input) λ value. ok (record { column = column.id; value = value })

  -- the loop of `write_cells`, over the columns and values side by side
  cells : List WriteColumn → List (InputValue F) → Bool → Result (List (CellEdit F))
  cells (write ∷ columns) (input ∷ values) omit_nulls =
      let rest = cells columns values omit_nulls in
      if not (has_capability write.capabilities column_editable)
      then rest
      else if input.value_type == input_null
      then (if omit_nulls then rest else err update_to_null)
      else and_then (cell_edit write input) λ edit. and_then rest λ edits. ok (edit ∷ edits)
  cells columns values omit_nulls = ok []

  pub write_cells : List WriteColumn → List (InputValue F) → Bool → Result (RowEdit F)
  write_cells columns values omit_nulls =
      and_then (cells columns values omit_nulls) λ edits. ok (record { cells = edits })

  -- the loop of `insert_payload`: `remaining` rounds from `row_index` on
  insert_from : List WriteColumn → List (InputValue F) → ℕ → ℕ → ℕ → Result (List (RowEdit F))
  insert_from columns values value_column_count row_index zero = ok []
  insert_from columns values value_column_count row_index (suc remaining) =
      let start = usize (row_index * value_column_count) in
      and_then (slice values start (usize (start + value_column_count))) λ part.
        and_then (write_cells columns part true) λ row.
          and_then (insert_from columns values value_column_count (suc row_index) remaining)
            λ rows. ok (row ∷ rows)

  -- A row count for which `Vec::with_capacity` overflows and panics is not told apart.
  pub insert_payload : List WriteColumn → List (InputValue F) → ℕ → ℕ → ℕ → Result (RowsUpsert F)
  insert_payload columns values row_count value_column_count table_capabilities =
      if not (has_capability table_capabilities table_insert)
      then err insert_unsupported
      else if ltb value_column_count (length columns)
          || ltb (length values) (usize (row_count * value_column_count))
      then err invalid_insert_shape
      else and_then (insert_from columns values value_column_count 0 row_count)
          λ rows. ok (record { rows = rows; key_columns = none })

  pub update_payload : List WriteColumn → List (InputValue F) → ℕ → Result (RowUpdate F)
  update_payload columns values table_capabilities =
      if not (has_capability table_capabilities table_update)
      then err update_unsupported
      else if not (length columns == length values)
      then err invalid_update_shape
      else and_then (write_cells columns values false) λ row. ok (record { row = row })

  description_text : InputValue F → Text
  description_text value =
      if value.value_type == 1
      then bool_text value.bool_value
      else if value.value_type == 2
      then i64_text value.int_value
      else if value.value_type == 3
      then to_string value.uint_value
      else if value.value_type == 4
      then serde.float_text value.double_value
      else if value.value_type == 5
      then value.string_value
      else codes "NULL"

  -- the query and its description
  pub build_equality_query : Text → Text → InputValue F → Result (Text × Text)
  build_equality_query column_id column_name value =
      if value.value_type == 0
      then err null_query
      else and_then (input_value_json value) λ literal. ok (
        column_id ++ (b':' ∷ serde.value_text literal),
        column_name ++ (codes " = " ++ description_text value),
      )
