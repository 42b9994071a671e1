-- ===== src/Ffi/Blocks.antt =====
-- The blocks that the extension allocates: texts, boxes and the buffers of vectors. `N` is the
-- numbers of a row, and `S` what a scan handle is.
use duckdb_superhuman_docs.Base.{
  ◌≡◌, refl, Text, List, [], ◌∷◌, Option, none, some, length, take, ltb, ap, arith, false,
}
use duckdb_superhuman_docs.Memory.{
  Ptr, null_ptr, block_ptr, part_ptr, static_ptr, Part, column_name, column_type, column_alias,
  table_name, row_id, row_created_at, row_updated_at, config_resource, Boxed, Buffer, read_values,
}
use duckdb_superhuman_docs.Memory.Strings.{FfiString, Contents}
use duckdb_superhuman_docs.Model.{ClientConfig, Table, Column, Row}
use duckdb_superhuman_docs.Ffi.Structs.{
  FfiColumn, FfiCatalogTable, FfiScanRow, FfiArrayValue, FfiNamedValue,
}

pub data Block (N S : Type 0) : Type 0 where
  text_block : Text → Block N S
  config_block : ClientConfig → Block N S
  table_block : Table → Block N S
  column_block : Column → Block N S
  row_block : Row N → Block N S
  scan_block : S → Block N S
  columns_block : List FfiColumn → Block N S
  tables_block : List FfiCatalogTable → Block N S
  rows_block : List FfiScanRow → Block N S
  array_block : List FfiArrayValue → Block N S
  strings_block : List FfiString → Block N S
  named_block : List FfiNamedValue → Block N S

-- The place of a text inside the box that a pointer leads to.
abbrev pub inside : Ptr → Part → Ptr
inside (block_ptr a) part = part_ptr a part
inside null_ptr part = null_ptr
inside (part_ptr a other) part = null_ptr
inside (static_ptr text) part = null_ptr

take-length : {X : Type 0} (xs : List X) → take (length xs) xs ≡ xs
take-length [] = refl
take-length (x ∷ xs) = ap (λ r. x ∷ r) (take-length xs)

pub read_values-length : {X : Type 0} (xs : List X) → read_values (length xs) xs ≡ some xs
read_values-length xs =
    let fits : ltb (length xs) (length xs) ≡ false = ground arith in rw (fits, take-length xs) refl

-- the buffer of a vector of structs
abbrev buffer_of :
    {B X : Type 0} (wrap : List X → B) (unwrap : B → Option (List X))
    → ((xs : List X) → unwrap (wrap xs) ≡ some xs)
    → Buffer B X
buffer_of wrap unwrap wrapped = record {
  wrap = wrap;
  unwrap = unwrap;
  size = length;
  read = read_values;
  wrapped = wrapped;
  read_whole = read_values-length;
  positive = λ x xs. (length xs, refl);
}

module _ {N S : Type 0} where
  abbrev as_text : Block N S → Option Text
  as_text (text_block t) = some t
  as_text b = none

  abbrev as_config : Block N S → Option ClientConfig
  as_config (config_block c) = some c
  as_config b = none

  abbrev as_table : Block N S → Option Table
  as_table (table_block t) = some t
  as_table b = none

  abbrev as_column : Block N S → Option Column
  as_column (column_block c) = some c
  as_column b = none

  abbrev as_row : Block N S → Option (Row N)
  as_row (row_block r) = some r
  as_row b = none

  abbrev as_scan : Block N S → Option S
  as_scan (scan_block s) = some s
  as_scan b = none

  abbrev as_columns : Block N S → Option (List FfiColumn)
  as_columns (columns_block l) = some l
  as_columns b = none

  abbrev as_tables : Block N S → Option (List FfiCatalogTable)
  as_tables (tables_block l) = some l
  as_tables b = none

  abbrev as_rows : Block N S → Option (List FfiScanRow)
  as_rows (rows_block l) = some l
  as_rows b = none

  abbrev as_array : Block N S → Option (List FfiArrayValue)
  as_array (array_block l) = some l
  as_array b = none

  abbrev as_strings : Block N S → Option (List FfiString)
  as_strings (strings_block l) = some l
  as_strings b = none

  abbrev as_named : Block N S → Option (List FfiNamedValue)
  as_named (named_block l) = some l
  as_named b = none

  abbrev pub config_box : Boxed (Block N S) ClientConfig
  config_box = record { wrap = config_block; unwrap = as_config; wrapped = λ c. refl }

  abbrev pub table_box : Boxed (Block N S) Table
  table_box = record { wrap = table_block; unwrap = as_table; wrapped = λ c. refl }

  abbrev pub column_box : Boxed (Block N S) Column
  column_box = record { wrap = column_block; unwrap = as_column; wrapped = λ c. refl }

  abbrev pub row_box : Boxed (Block N S) (Row N)
  row_box = record { wrap = row_block; unwrap = as_row; wrapped = λ c. refl }

  abbrev pub scan_box : Boxed (Block N S) S
  scan_box = record { wrap = scan_block; unwrap = as_scan; wrapped = λ c. refl }

  abbrev pub columns_buffer : Buffer (Block N S) FfiColumn
  columns_buffer = buffer_of columns_block as_columns (λ l. refl)

  abbrev pub tables_buffer : Buffer (Block N S) FfiCatalogTable
  tables_buffer = buffer_of tables_block as_tables (λ l. refl)

  abbrev pub rows_buffer : Buffer (Block N S) FfiScanRow
  rows_buffer = buffer_of rows_block as_rows (λ l. refl)

  abbrev pub array_buffer : Buffer (Block N S) FfiArrayValue
  array_buffer = buffer_of array_block as_array (λ l. refl)

  abbrev pub strings_buffer : Buffer (Block N S) FfiString
  strings_buffer = buffer_of strings_block as_strings (λ l. refl)

  abbrev pub named_buffer : Buffer (Block N S) FfiNamedValue
  named_buffer = buffer_of named_block as_named (λ l. refl)

  abbrev part_text : Part → Block N S → Option Text
  part_text column_name (column_block c) = some c.name
  part_text column_type (column_block c) = some c.duckdb_type
  part_text column_alias (column_block c) = some c.duckdb_type_alias
  part_text table_name (table_block t) = some t.name
  part_text row_id (row_block r) = some r.id
  part_text row_created_at (row_block r) = some r.created_at
  part_text row_updated_at (row_block r) = some r.updated_at
  part_text config_resource (config_block c) = some c.resource
  part_text part b = none

  abbrev pub contents : Contents (Block N S)
  contents = record {
    text = record { wrap = text_block; unwrap = as_text; wrapped = λ t. refl };
    part = part_text;
  }
