-- ===== src/Exports/Metadata.antt =====
-- src/exports/metadata.rs, and the names of src/exports/scan_planning.rs: the texts of the program
-- that DuckDB reads as C strings.
use duckdb_superhuman_docs.Base.{
  ℕ, ◌++◌, Text, List, [], ◌∷◌, String, Bool, false, Option, Error, codes, ◌-◌, ◌==◌, if◌then◌else◌,
}
use duckdb_superhuman_docs.Memory.{Heap, Ptr, static_ptr, and_maybe}
use duckdb_superhuman_docs.Memory.Strings.{FfiString, alloc_string, str_from_raw}
use duckdb_superhuman_docs.Ffi.Blocks.{Block, contents}
use duckdb_superhuman_docs.Exports.{Returns, building, writes, ffi_bool}

-- `b"…\0"`
abbrev pub nul_terminated : String → Text
nul_terminated text = codes text ++ 0 ∷ []

-- `c_static(value)`
abbrev pub c_static : Text → Ptr
c_static value = static_ptr value

abbrev pub extension_name : Text
extension_name = nul_terminated "superhuman_docs"

unfoldable pub rust_ext_extension_name : Ptr
rust_ext_extension_name = c_static extension_name

unfoldable pub rust_ext_unsupported_update_expression_message : Ptr
rust_ext_unsupported_update_expression_message =
    c_static (nul_terminated "Unsupported Superhuman Docs UPDATE expression type")

unfoldable pub rust_ext_row_id_column_name : Ptr
rust_ext_row_id_column_name = c_static (nul_terminated "rowid")

unfoldable pub rust_ext_insert_operator_name : Ptr
rust_ext_insert_operator_name = c_static (nul_terminated "SUPERHUMAN_DOCS_INSERT")

unfoldable pub rust_ext_update_operator_name : Ptr
rust_ext_update_operator_name = c_static (nul_terminated "SUPERHUMAN_DOCS_UPDATE")

unfoldable pub rust_ext_delete_operator_name : Ptr
rust_ext_delete_operator_name = c_static (nul_terminated "SUPERHUMAN_DOCS_DELETE")

dml_message : ℕ → String
dml_message operation =
    if operation == 0
    then "Superhuman Docs INSERT is not supported for this table"
    else if operation == 1
    then "Superhuman Docs UPDATE is not supported for this table"
    else if operation == 2
    then "Superhuman Docs DELETE is not supported for this table"
    else "Superhuman Docs DML is not supported for this table"

unfoldable pub rust_ext_dml_not_supported_message : ℕ → Ptr
unfolding dml_message
rust_ext_dml_not_supported_message operation = c_static (nul_terminated (dml_message operation))

-- the statements of the first fourteen operations
ddl_message : List String → ℕ → Text
ddl_message [] operation = codes "Superhuman Docs DDL is not supported"
ddl_message (statement ∷ rest) operation =
    if operation == 0
    then codes "Superhuman Docs DDL is not supported: " ++ codes statement
    else ddl_message rest (operation - 1)

abbrev ddl_statements : List String
ddl_statements =
    "CREATE SCHEMA" ∷ "DROP SCHEMA" ∷ "CREATE TABLE AS" ∷ "CREATE INDEX" ∷ "CREATE FUNCTION"
    ∷ "CREATE TABLE" ∷ "CREATE VIEW" ∷ "CREATE SEQUENCE" ∷ "CREATE TABLE FUNCTION"
    ∷ "CREATE COPY FUNCTION" ∷ "CREATE PRAGMA FUNCTION" ∷ "CREATE COLLATION" ∷ "CREATE TYPE"
    ∷ "ALTER" ∷ []

unfoldable pub rust_ext_ddl_not_supported_message : ℕ → Ptr
unfolding ddl_message
rust_ext_ddl_not_supported_message operation =
    c_static (ddl_message ddl_statements operation ++ 0 ∷ [])

unfoldable pub rust_ext_database_size_not_available_message : Ptr
rust_ext_database_size_not_available_message =
    c_static (nul_terminated "Superhuman Docs database size is not available")

returning_message : ℕ → String
returning_message operation =
    if operation == 0
    then "RETURNING is not supported for Superhuman Docs INSERT"
    else if operation == 1
    then "RETURNING is not supported for Superhuman Docs UPDATE"
    else if operation == 2
    then "RETURNING is not supported for Superhuman Docs DELETE"
    else "RETURNING is not supported for this Superhuman Docs extension operation"

unfoldable pub rust_ext_returning_not_supported_message : ℕ → Ptr
unfolding returning_message
rust_ext_returning_not_supported_message operation =
    c_static (nul_terminated (returning_message operation))

unfoldable pub rust_ext_explicit_transaction_not_supported_message : Ptr
rust_ext_explicit_transaction_not_supported_message = c_static (
    nul_terminated
      "Superhuman Docs does not support explicit DuckDB transactions; use autocommit statements")

unfoldable pub rust_ext_transaction_rollback_not_supported_message : Ptr
rust_ext_transaction_rollback_not_supported_message = c_static (
    nul_terminated
      "Superhuman Docs writes cannot be rolled back after they are sent; use autocommit statements")

abbrev pub rust_ext_supports_explicit_transactions : Bool
rust_ext_supports_explicit_transactions = false

abbrev pub rust_ext_supports_transaction_rollback : Bool
rust_ext_supports_transaction_rollback = false

unfoldable pub rust_ext_scan_function_name : Ptr
rust_ext_scan_function_name = c_static (nul_terminated "superhuman_docs_scan")

unfoldable pub rust_ext_scan_query_label : Ptr
rust_ext_scan_query_label = c_static (nul_terminated "Superhuman Docs Query")

unfoldable pub rust_ext_scan_sort_label : Ptr
rust_ext_scan_sort_label = c_static (nul_terminated "Superhuman Docs Sort")

unfoldable pub rust_ext_scan_limit_label : Ptr
rust_ext_scan_limit_label = c_static (nul_terminated "Superhuman Docs Limit")

unfoldable pub rust_ext_scan_column_index_out_of_range_message : Ptr
rust_ext_scan_column_index_out_of_range_message =
    c_static (nul_terminated "Superhuman Docs scan column index out of range")

unfoldable pub rust_ext_ddl_drop_entry_not_supported_message :
    {N S W : Type 0}
    → (Error → Text)
    → Ptr
    → ℕ
    → Option FfiString
    → Option FfiString
    → Heap (Block N S)
    → W
    → Returns (Block N S) W (Option FfiString)
unfolding ffi_bool writes alloc_string str_from_raw
rust_ext_ddl_drop_entry_not_supported_message display ptr len out error h w =
    ffi_bool display (codes "failed to build Superhuman Docs DDL error") error
      (λ h w. and_maybe (str_from_raw contents ptr len h) λ name. writes out (
        building
          (alloc_string contents (codes "Superhuman Docs DDL is not supported: DROP " ++ name)) h
          w))
      h w
