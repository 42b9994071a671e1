-- ===== src/Json/Rows.antt =====
-- src/json/rows.rs
use duckdb_superhuman_docs.Base.{
  Text, List, [], map, false, Result, ok, none, some, and_then, ok_or, collect, codes, ◌||◌,
  missing_items, missing_row_id,
}
use duckdb_superhuman_docs.Json.Values.{Value, Serde, entries}
use duckdb_superhuman_docs.Json.Access.{get_str, get_bool, get_array, get_object, unwrap_or}
use duckdb_superhuman_docs.Model.{Cell, Row, RowsResponse}

module _ {N : Type 0} where
  -- the cells, in the order of the object's entries
  cells_of : Value N → List (Cell N)
  cells_of item = elim (get_object "values" item) [
    | none ↦ []
    | some values ↦ map (λ entry. record { column_id = entry.0; value = entry.1 }) (entries values)
  ]

  -- one round of the loop
  row_from_item : Value N → Result (Row N)
  row_from_item item = and_then (ok_or missing_row_id (get_str "id" item)) λ id. ok (record {
    id = id;
    created_at = unwrap_or (codes "") (get_str "createdAt" item);
    updated_at = unwrap_or (codes "") (get_str "updatedAt" item);
    deleted =
        unwrap_or false (get_bool "deleted" item) || unwrap_or false (get_bool "isDeleted" item);
    cells = cells_of item;
  })

module _ {N F : Type 0} (serde : Serde N F) where
  unfoldable pub rows_from_json : Text → Result (RowsResponse N)
  unfolding row_from_item cells_of
  rows_from_json body = and_then (serde.from_str body) λ root.
      and_then (ok_or missing_items (get_array "items" root)) λ values.
        and_then (collect row_from_item values) λ rows. ok (record {
          rows = rows;
          next_page_token = unwrap_or (codes "") (get_str "nextPageToken" root);
          next_sync_token = unwrap_or (codes "") (get_str "nextSyncToken" root);
        })
