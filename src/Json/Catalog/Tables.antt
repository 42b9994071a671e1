-- ===== src/Json/Catalog/Tables.antt =====
-- `table_list_from_json` and `column_list_from_json` of src/json/catalog.rs.
pub mod Capabilities
pub mod Items
use duckdb_superhuman_docs.Base.{
  ℕ, Text, List, Bool, false, Result, ok, err, Option, none, some, and_then, ok_or, collect, codes,
  not, if◌then◌else◌, missing_items, missing_table_id, missing_table_name, missing_column_id,
  missing_column_name,
}
use duckdb_superhuman_docs.Base.Ascii.{eq_ignore_ascii_case}
use duckdb_superhuman_docs.Json.{Value, Serde}
use duckdb_superhuman_docs.Json.Values.{object}
use duckdb_superhuman_docs.Json.Access.{get, get_str, get_bool, get_array, get_object, unwrap_or}
use duckdb_superhuman_docs.Json.Catalog.Types.{logical_type, logical_type_alias}
use duckdb_superhuman_docs.Model.{Table, Column, Page}
use duckdb_superhuman_docs.Model.Capability.{
  union, table_view, table_insert, table_update, table_delete, table_row_id, column_generated,
  column_editable, column_filter_equality,
}

table_capabilities : Bool → ℕ
table_capabilities is_view =
    if is_view
    then union table_view table_row_id
    else union (union (union table_insert table_update) table_delete) table_row_id

column_capabilities : Bool → Bool → ℕ
column_capabilities calculated is_array =
    let written = union 0 (if calculated then column_generated else column_editable) in
    if not is_array then union written column_filter_equality else written

-- the record pushed for a table, with `?` on its id and its name
table_of : Bool → Option Text → Option Text → Result Table
table_of is_view none name = err missing_table_id
table_of is_view (some id) none = err missing_table_name
table_of is_view (some id) (some name) =
    ok (record { id = id; name = name; capabilities = table_capabilities is_view })

-- the record pushed for a column, likewise
column_of : Text → Bool → Bool → Option Text → Option Text → Result Column
column_of format_type is_array calculated none name = err missing_column_id
column_of format_type is_array calculated (some id) none = err missing_column_name
column_of format_type is_array calculated (some id) (some name) = ok (record {
  id = id;
  name = name;
  format_type = format_type;
  duckdb_type = logical_type format_type is_array;
  duckdb_type_alias = logical_type_alias format_type;
  is_array = is_array;
  capabilities = column_capabilities calculated is_array;
})

module _ {N : Type 0} where
  -- one round of the loop over the tables
  table_from_item : Value N → Result Table
  unfolding table_of
  table_from_item item =
      let table_type = unwrap_or (codes "table") (get_str "tableType" item) in
      let is_view = not (eq_ignore_ascii_case table_type (codes "table")) in
      table_of is_view (get_str "id" item) (get_str "name" item)

  -- `format.and_then(|inner| inner.get(…))`
  abbrev inner : {A : Type 0} → (Value N → Option A) → Value N → Option A
  inner read item = elim (get_object "format" item) [ none ↦ none | some f ↦ read (object f) ]

  -- one round of the loop over the columns
  column_from_item : Value N → Result Column
  unfolding column_of
  column_from_item item =
      let format_type = unwrap_or (codes "text") (inner (get_str "type") item) in
      let is_array = unwrap_or false (inner (get_bool "isArray") item) in
      let calculated = unwrap_or false (get_bool "calculated" item) in
      column_of format_type is_array calculated (get_str "id" item) (get_str "name" item)

module _ {N F : Type 0} (serde : Serde N F) where
  -- both functions: the items of the page, each read by `item`, and the next page's token
  page_from_json : {T : Type 0} → (Value N → Result T) → Text → Result (Page T)
  page_from_json item body = and_then (serde.from_str body) λ root.
      and_then (ok_or missing_items (get_array "items" root)) λ values.
        and_then (collect item values) λ read. ok (record {
          items = read;
          next_page_token = unwrap_or (codes "") (get_str "nextPageToken" root);
        })

  unfoldable pub table_list_from_json : Text → Result (Page Table)
  unfolding page_from_json table_from_item table_capabilities
  table_list_from_json body = page_from_json table_from_item body

  unfoldable pub column_list_from_json : Text → Result (Page Column)
  unfolding page_from_json column_from_item column_capabilities
  column_list_from_json body = page_from_json column_from_item body
