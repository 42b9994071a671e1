-- ===== src/Json/Handles/Lifetime.antt =====
-- What DuckDB reads through the handles of a catalog or a batch, until it frees them.
use duckdb_superhuman_docs.Base.{ℕ, refl, Text, List, map, Bool, some}
use duckdb_superhuman_docs.Memory.{
  Heap, column_name, column_type, column_alias, table_name, row_id, Reading, Boxed, and_maybe,
  deref, into_raw, build_vec, read_vec, free_vec,
}
use duckdb_superhuman_docs.Memory.Build.{
  IsBuilt, Builds, into_raw-IsBuilt, deref-block, IsBuilt-both_sym,
}
use duckdb_superhuman_docs.Memory.Vectors.{build_vec-Builds}
use duckdb_superhuman_docs.Memory.Strings.{as_str, as_str-borrow_string}
use duckdb_superhuman_docs.Model.{Table, Column, Row}
use duckdb_superhuman_docs.Ffi.Structs.{
  FfiColumn, FfiCatalogTable, FfiCatalog, FfiScanRow, FfiScanBatch,
}
use duckdb_superhuman_docs.Ffi.Blocks.{
  Block, table_block, column_block, row_block, table_box, column_box, row_box, columns_buffer,
  tables_buffer, rows_buffer, contents,
}
use duckdb_superhuman_docs.Json.Handles.{
  free_handle, ffi_column, ffi_catalog_table, ffi_catalog, ffi_scan_row, ffi_scan_batch, free_row,
  free_scan_batch, free_column, free_table, free_catalog,
}

-- What there is to see of a column: its box, and its strings and capabilities.
pub record SeenColumn : Type 0 where
  pub column : Column
  pub name : Text
  pub logical_type : Text
  pub value_type_alias : Text
  pub capabilities : ℕ

pub record SeenTable : Type 0 where
  pub table : Table
  pub name : Text
  pub capabilities : ℕ
  pub columns : List SeenColumn

pub record SeenRow (N : Type 0) : Type 0 where
  pub row : Row N
  pub row_id : Text

abbrev pub column_seen : Column → SeenColumn
column_seen c = record {
  column = c;
  name = c.name;
  logical_type = c.duckdb_type;
  value_type_alias = c.duckdb_type_alias;
  capabilities = c.capabilities;
}

abbrev pub table_seen : Table × List Column → SeenTable
table_seen (t, columns) = record {
  table = t;
  name = t.name;
  capabilities = t.capabilities;
  columns = map column_seen columns;
}

abbrev pub row_seen : {N : Type 0} → Row N → SeenRow N
row_seen r = record { row = r; row_id = r.id }

module _ {N S : Type 0} where
  abbrev pub see_column : FfiColumn → Reading (Block N S) SeenColumn
  see_column c h = and_maybe (deref column_box c.handle h) λ column.
      and_maybe (as_str contents c.name h) λ name.
        and_maybe (as_str contents c.logical_type h) λ logical_type.
          and_maybe (as_str contents c.value_type_alias h) λ value_type_alias. some (record {
            column = column;
            name = name;
            logical_type = logical_type;
            value_type_alias = value_type_alias;
            capabilities = c.capabilities;
          })

  abbrev pub see_table : FfiCatalogTable → Reading (Block N S) SeenTable
  see_table t h = and_maybe (deref table_box t.handle h) λ table.
      and_maybe (as_str contents t.name h) λ name.
        and_maybe (read_vec columns_buffer see_column t.columns h) λ columns.
          some (record {
            table = table;
            name = name;
            capabilities = t.capabilities;
            columns = columns;
          })

  abbrev pub see_catalog : FfiCatalog → Reading (Block N S) (List SeenTable)
  see_catalog catalog = read_vec tables_buffer see_table catalog.tables

  abbrev pub see_row : FfiScanRow → Reading (Block N S) (SeenRow N)
  see_row r h = and_maybe (deref row_box r.handle h) λ row.
      and_maybe (as_str contents r.row_id h) λ row_id. some (record { row = row; row_id = row_id })

  abbrev pub see_batch : FfiScanBatch → Reading (Block N S) (List (SeenRow N))
  see_batch batch = read_vec rows_buffer see_row batch.rows

  module _ {C : Type 0} (boxed : Boxed (Block N S) C) where
    -- The block of a handle, until the handle is freed.
    pub handle-IsBuilt :
        (c : C) (h : Heap (Block N S))
        → IsBuilt
            (λ g. g.cell h.next)
            (free_handle boxed (into_raw boxed c h).0)
            (boxed.wrap c)
            h
            (into_raw boxed c h).1
    unfolding into_raw free_handle
    handle-IsBuilt c h = into_raw-IsBuilt boxed c h

  ffi_scan_row-Builds : Builds see_row free_row (ffi_scan_row {N = N} {S = S}) row_seen
  unfolding ffi_scan_row
  ffi_scan_row-Builds row h =
      let a = h.next in
      let b = row_block row in
      let (grows, held) = handle-IsBuilt row_box row h in
      (
        grows,
        λ g agree.
            let (e, released) = held g agree in
            (
              rw
                  (
                    deref-block row_box a row g e,
                    as_str-borrow_string contents a row_id b g row.id e refl,
                  )
                  refl,
              released,
            ),
      )

  ffi_column-Builds : Builds see_column free_column (ffi_column {N = N} {S = S}) column_seen
  unfolding ffi_column
  ffi_column-Builds c h =
      let a = h.next in
      let b = column_block c in
      let (grows, held) = handle-IsBuilt column_box c h in
      (
        grows,
        λ g agree.
            let (e, released) = held g agree in
            let name = as_str-borrow_string contents a column_name b g c.name e refl in
            let kind = as_str-borrow_string contents a column_type b g c.duckdb_type e refl in
            let alias =
              as_str-borrow_string contents a column_alias b g c.duckdb_type_alias e refl in
            (rw (deref-block column_box a c g e, name, kind, alias) refl, released),
      )

  ffi_catalog_table-Builds :
      Builds see_table free_table (ffi_catalog_table {N = N} {S = S}) table_seen
  unfolding ffi_catalog_table free_table
  ffi_catalog_table-Builds (t, columns) h =
      let a = h.next in
      let b = table_block t in
      let (handle, h₁) = into_raw table_box t h in
      let (parts, h₂) = build_vec columns_buffer ffi_column columns h₁ in
      let (grows, held) =
        IsBuilt-both_sym (λ g. g.cell a) (read_vec columns_buffer see_column parts)
          (free_handle table_box handle) (free_vec columns_buffer free_column parts) b
          (map column_seen columns) h h₁ h₂ (handle-IsBuilt table_box t h)
          (build_vec-Builds columns_buffer see_column free_column ffi_column column_seen
            ffi_column-Builds columns h₁) in
      (
        grows,
        λ g agree.
            let (e, seen, released) = held g agree in
            let name = as_str-borrow_string contents a table_name b g t.name e refl in
            (rw (deref-block table_box a t g e, name, seen) refl, released),
      )

  -- A batch that is handed to DuckDB, whatever memory there is: through its handles DuckDB reads the
  -- rows in their order, each with its id, as long as the blocks of the batch are as they were built;
  -- and freeing it then never goes wrong and frees exactly the blocks that building it added.
  pub ffi_scan_batch-Builds :
      (finished : Bool)
      → Builds see_batch free_scan_batch
          (λ rows. ffi_scan_batch {N = N} {S = S} rows finished)
          (map row_seen)
  unfolding ffi_scan_batch free_scan_batch
  ffi_scan_batch-Builds finished rows h =
      build_vec-Builds rows_buffer see_row free_row ffi_scan_row row_seen ffi_scan_row-Builds rows h

  -- A catalog that is handed to DuckDB, whatever memory there is: through its handles DuckDB reads
  -- the tables with their names and capabilities, and their columns with names, types, aliases and
  -- capabilities, in their order, as long as the blocks of the catalog are as they were built; and
  -- freeing it then never goes wrong and frees exactly the blocks that building it added.
  pub ffi_catalog-Builds :
      Builds see_catalog free_catalog (ffi_catalog {N = N} {S = S}) (map table_seen)
  unfolding ffi_catalog free_catalog
  ffi_catalog-Builds tables h =
      build_vec-Builds tables_buffer see_table free_table ffi_catalog_table table_seen
        ffi_catalog_table-Builds tables h
