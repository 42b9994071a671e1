-- ===== src/Json/Catalog/Types.antt =====
-- `logical_type`, `logical_type_alias` and `append_row_metadata` of src/json/catalog.rs.
use duckdb_superhuman_docs.Base.{
  Text, String, List, [], ◌∷◌, ◌++◌, Bool, false, codes, one_of, if◌then◌else◌,
}
use duckdb_superhuman_docs.Base.Ascii.{to_ascii_lowercase}
use duckdb_superhuman_docs.Model.{Column}
use duckdb_superhuman_docs.Model.Capability.{
  column_generated, column_system, column_sort_asc, union,
}

scalar_type : Text → Text
scalar_type kind =
    if one_of kind ("checkbox" ∷ [])
    then codes "BOOLEAN"
    else if one_of kind ("text" ∷ "email" ∷ "select" ∷ [])
    then codes "VARCHAR"
    else if one_of kind ("number" ∷ "percent" ∷ "slider" ∷ "scale" ∷ [])
    then codes "DECIMAL(38,20)"
    else if one_of kind ("date" ∷ [])
    then codes "DATE"
    else if one_of kind ("datetime" ∷ [])
    then codes "TIMESTAMPTZ"
    else if one_of kind ("time" ∷ [])
    then codes "TIME"
    else if one_of kind ("duration" ∷ [])
    then codes "INTERVAL"
    else if one_of kind ("currency" ∷ [])
    then codes "STRUCT(currency VARCHAR, amount DECIMAL(38,20))"
    else if one_of kind ("image" ∷ [])
    then codes "STRUCT(name VARCHAR, url VARCHAR, height DOUBLE, width DOUBLE, status VARCHAR)"
    else if one_of kind ("person" ∷ [])
    then codes "STRUCT(name VARCHAR, email VARCHAR)"
    else if one_of kind ("link" ∷ "hyperlink" ∷ [])
    then codes "STRUCT(name VARCHAR, url VARCHAR)"
    else if one_of kind ("lookup" ∷ [])
    then codes "STRUCT(name VARCHAR, url VARCHAR, tableId VARCHAR, tableUrl VARCHAR, rowId VARCHAR)"
    else codes "VARCHAR"

unfoldable pub logical_type : Text → Bool → Text
unfolding scalar_type to_ascii_lowercase one_of
logical_type format_type is_array =
    let scalar = scalar_type (to_ascii_lowercase format_type) in
    if is_array then scalar ++ codes "[]" else scalar

known_formats : List String
known_formats =
    "checkbox" ∷ "text" ∷ "email" ∷ "select" ∷ "number" ∷ "percent" ∷ "slider" ∷ "scale" ∷ "date"
    ∷ "datetime" ∷ "time" ∷ "duration" ∷ "currency" ∷ "image" ∷ "person" ∷ "link" ∷ "hyperlink"
    ∷ "lookup" ∷ []

unfoldable pub logical_type_alias : Text → Text
unfolding known_formats to_ascii_lowercase one_of
logical_type_alias format_type =
    if one_of (to_ascii_lowercase format_type) known_formats then [] else codes "JSON"

metadata_column : Text → Column
metadata_column name = record {
  id = name;
  name = name;
  format_type = codes "datetime";
  duckdb_type = logical_type (codes "datetime") false;
  duckdb_type_alias = [];
  is_array = false;
  capabilities = union (union column_generated column_system) column_sort_asc;
}

unfoldable pub append_row_metadata : List Column → List Column
unfolding metadata_column logical_type
append_row_metadata columns =
    columns ++ (metadata_column (codes "createdAt") ∷ metadata_column (codes "updatedAt") ∷ [])
