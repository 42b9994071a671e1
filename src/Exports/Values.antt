-- ===== src/Exports/Values.antt =====
-- The values of cells for DuckDB: the end of `scan_value` in src/scan.rs, where its value becomes a
-- `RustExtScanValue`, and `rust_ext_scan_value` and `rust_ext_free_scan_value` of src/exports/scan.rs.
pub mod Lifetime
use duckdb_superhuman_docs.Base.{
  ℕ, Text, List, [], ◌∷◌, Bool, true, false, Option, none, some, Result, ok, err, Error, codes,
  if◌then◌else◌,
}
use duckdb_superhuman_docs.Base.Ascii.{eq_ignore_ascii_case}
use duckdb_superhuman_docs.Json.{Serde}
use duckdb_superhuman_docs.Model.{Column, Row}
use duckdb_superhuman_docs.Scan.{ScanValue, null_value, text_value, array_value, scan_value}
use duckdb_superhuman_docs.Memory.{
  Heap, Mem, Reading, Building, Ptr, null_ptr, Part, row_created_at, row_updated_at, and_maybe,
  build_vec, free_vec,
}
use duckdb_superhuman_docs.Memory.Owned.{seq, done}
use duckdb_superhuman_docs.Memory.Strings.{
  FfiString, empty_string, alloc_string, borrow_string, free,
}
use duckdb_superhuman_docs.Ffi.Structs.{FfiArrayValue, FfiScanValue, default_scan_value}
use duckdb_superhuman_docs.Ffi.Blocks.{Block, inside, array_buffer, contents}
use duckdb_superhuman_docs.Exports.{write_out, column_from_handle, row_from_handle}

-- the string of a row that a system column borrows
abbrev pub system_part : Text → Part
system_part column_id =
    if eq_ignore_ascii_case column_id (codes "createdAt") then row_created_at else row_updated_at

module _ {N S : Type 0} where
  -- an element of an array, or the null that stands for it
  unfoldable pub ffi_item : Option Text → Building (Block N S) FfiArrayValue
  unfolding alloc_string
  ffi_item none h = (record { is_null = true; value = empty_string }, h)
  ffi_item (some text) h =
      let (value, h') = alloc_string contents text h in
      (record { is_null = false; value = value }, h')

  -- the `RustExtScanValue`; `place` is where a text that is not owned stands
  unfoldable pub ffi_value : Ptr → ScanValue → Building (Block N S) FfiScanValue
  unfolding alloc_string borrow_string build_vec ffi_item
  ffi_value place null_value h = (default_scan_value, h)
  ffi_value place (text_value false text) h =
      (record default_scan_value { is_null = false; value = borrow_string place text }, h)
  ffi_value place (text_value true text) h =
      let (value, h') = alloc_string contents text h in
      (record default_scan_value { is_null = false; value_owned = true; value = value }, h')
  ffi_value place (array_value items) h =
      let (parts, h') = build_vec array_buffer ffi_item items h in
      (record default_scan_value { is_null = false; array_values = parts }, h')

  unfoldable pub free_item : FfiArrayValue → Mem (Block N S) (Unit {0})
  unfolding free
  free_item item h = if item.is_null then done h else free contents item.value h

  unfoldable pub free_owned : FfiScanValue → Mem (Block N S) (Unit {0})
  unfolding free
  free_owned value h = if value.value_owned then free contents value.value h else done h

  unfoldable pub rust_ext_free_scan_value : FfiScanValue → Mem (Block N S) (Unit {0})
  unfolding free_owned free_vec free_item
  rust_ext_free_scan_value value =
      seq (free_owned value) (free_vec array_buffer free_item value.array_values)

  module _ {F : Type 0} (serde : Serde N F) where
    -- `scan_value(column, row)` with the row in its box
    unfoldable pub ffi_scan_value : Column → Ptr → Row N → Building (Block N S) FfiScanValue
    unfolding ffi_value
    ffi_scan_value column handle row =
        ffi_value (inside handle (system_part column.id)) (scan_value serde column row)

    -- the value is built before the output pointer is looked at
    unfoldable pub rust_ext_scan_value :
        Ptr
        → Ptr
        → Option FfiScanValue
        → Heap (Block N S)
        → Option (Bool × Option FfiScanValue × Heap (Block N S))
    unfolding column_from_handle row_from_handle ffi_scan_value write_out
    rust_ext_scan_value column row out h = and_maybe (column_from_handle column h) λ found.
        elim found [
          | err e ↦ some (false, out, h)
          | ok column' ↦ and_maybe (row_from_handle row h) λ found'. elim found' [
            | err e ↦ some (false, out, h)
            | ok row' ↦
                let (value, h') = ffi_scan_value column' row row' h in
                elim out [ none ↦ some (false, none, h') | some old ↦ some (true, some value, h') ]
          ]
        ]
