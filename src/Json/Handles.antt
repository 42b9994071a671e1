-- ===== src/Json/Handles.antt =====
-- src/json/ffi.rs: catalogs and batches of rows as handles for DuckDB, and how they are freed.
pub mod Lifetime
use duckdb_superhuman_docs.Base.{ℕ, List, [], ◌∷◌, Bool, if◌then◌else◌}
use duckdb_superhuman_docs.Memory.{
  Heap, Mem, Building, Ptr, part_ptr, Part, column_name, column_type, column_alias, table_name,
  row_id, Boxed, is_null_ptr, into_raw, from_raw, build_vec, free_vec,
}
use duckdb_superhuman_docs.Memory.Owned.{seq, done}
use duckdb_superhuman_docs.Memory.Build.{dropping}
use duckdb_superhuman_docs.Memory.Strings.{borrow_string}
use duckdb_superhuman_docs.Model.{Table, Column, Row}
use duckdb_superhuman_docs.Ffi.Structs.{
  FfiColumn, FfiCatalogTable, FfiCatalog, FfiScanRow, FfiScanBatch,
}
use duckdb_superhuman_docs.Ffi.Blocks.{
  Block, inside, table_box, column_box, row_box, columns_buffer, tables_buffer, rows_buffer,
}

-- `if !handle.is_null() { drop(Box::from_raw(handle)) }`
unfoldable pub free_handle : {B C : Type 0} → Boxed B C → Ptr → Mem B (Unit {0})
unfolding from_raw
free_handle boxed handle h =
    if is_null_ptr handle then done h else dropping (from_raw boxed handle) h

module _ {N S : Type 0} where
  unfoldable pub ffi_column : Column → Building (Block N S) FfiColumn
  unfolding into_raw borrow_string
  ffi_column column h =
      let (handle, h') = into_raw column_box column h in
      (
        record {
          handle = handle;
          name = borrow_string (inside handle column_name) column.name;
          logical_type = borrow_string (inside handle column_type) column.duckdb_type;
          value_type_alias = borrow_string (inside handle column_alias) column.duckdb_type_alias;
          capabilities = column.capabilities;
        },
        h',
      )

  unfoldable pub ffi_catalog_table : Table × List Column → Building (Block N S) FfiCatalogTable
  unfolding into_raw borrow_string ffi_column build_vec
  ffi_catalog_table (table, columns) h =
      let (handle, h₁) = into_raw table_box table h in
      let (parts, h₂) = build_vec columns_buffer ffi_column columns h₁ in
      (
        record {
          handle = handle;
          name = borrow_string (inside handle table_name) table.name;
          capabilities = table.capabilities;
          columns = parts;
        },
        h₂,
      )

  -- the end of `load_catalog`, once all the tables are loaded
  unfoldable pub ffi_catalog : List (Table × List Column) → Building (Block N S) FfiCatalog
  unfolding build_vec ffi_catalog_table
  ffi_catalog tables h =
      let (parts, h') = build_vec tables_buffer ffi_catalog_table tables h in
      (record { tables = parts }, h')

  -- the closure of `ffi_scan_batch`
  unfoldable pub ffi_scan_row : Row N → Building (Block N S) FfiScanRow
  unfolding into_raw borrow_string
  ffi_scan_row row h =
      let (handle, h') = into_raw row_box row h in
      (record { handle = handle; row_id = borrow_string (inside handle row_id) row.id }, h')

  unfoldable pub ffi_scan_batch : List (Row N) → Bool → Building (Block N S) FfiScanBatch
  unfolding build_vec ffi_scan_row
  ffi_scan_batch rows finished h =
      let (parts, h') = build_vec rows_buffer ffi_scan_row rows h in
      (record { rows = parts; finished = finished }, h')

  abbrev pub free_row : FfiScanRow → Mem (Block N S) (Unit {0})
  free_row row = free_handle row_box row.handle

  unfoldable pub free_scan_batch : FfiScanBatch → Mem (Block N S) (Unit {0})
  unfolding free_vec free_handle
  free_scan_batch batch = free_vec rows_buffer free_row batch.rows

  abbrev pub free_column : FfiColumn → Mem (Block N S) (Unit {0})
  free_column column = free_handle column_box column.handle

  -- the body of the loop of `free_catalog`
  unfoldable pub free_table : FfiCatalogTable → Mem (Block N S) (Unit {0})
  unfolding free_vec free_handle
  free_table table =
      seq (free_vec columns_buffer free_column table.columns) (free_handle table_box table.handle)

  unfoldable pub free_catalog : FfiCatalog → Mem (Block N S) (Unit {0})
  unfolding free_vec free_table
  free_catalog catalog = free_vec tables_buffer free_table catalog.tables
