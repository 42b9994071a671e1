-- ===== src/Json/Catalog/Tables/Capabilities.antt =====
-- What the tables and columns of a page may be used for.
use duckdb_superhuman_docs.Base.{
  Text, ◌≡◌, refl, Bool, true, false, Result, ok, Option, none, some, and_then-eq-ok, ok_or, All,
  All-collect, collect, ok-injective, not, missing_items,
}
use duckdb_superhuman_docs.Json.{Value, Serde}
use duckdb_superhuman_docs.Json.Access.{get_array}
use duckdb_superhuman_docs.Json.Catalog.Tables.{
  table_of, column_of, table_from_item, column_from_item, table_capabilities, column_capabilities,
  page_from_json, table_list_from_json, column_list_from_json,
}
use duckdb_superhuman_docs.Json.Catalog.Types.{logical_type, logical_type_alias}
use duckdb_superhuman_docs.Model.{Table, Column, Page}
use duckdb_superhuman_docs.Model.Capability.{
  has_capability, table_view, table_insert, table_update, table_delete, table_row_id,
  column_generated, column_system, column_editable, column_filter_equality,
}

-- A table that is written in every way, or a view that is not written at all; both have row ids.
pub record HasTableRights (t : Table) : Type 0 where
  pub row_id : has_capability t.capabilities table_row_id ≡ true
  pub insert :
      has_capability t.capabilities table_insert ≡ not (has_capability t.capabilities table_view)
  pub update :
      has_capability t.capabilities table_update ≡ not (has_capability t.capabilities table_view)
  pub delete :
      has_capability t.capabilities table_delete ≡ not (has_capability t.capabilities table_view)

-- A column is computed by the service or can be written, never both and never neither, is not one
-- of the system's, can be filtered on unless it holds arrays, and has the type of its format.
pub record HasColumnRights (c : Column) : Type 0 where
  pub editable :
      has_capability c.capabilities column_editable
      ≡ not (has_capability c.capabilities column_generated)
  pub system : has_capability c.capabilities column_system ≡ false
  pub filter : has_capability c.capabilities column_filter_equality ≡ not c.is_array
  pub typed : c.duckdb_type ≡ logical_type c.format_type c.is_array
  pub aliased : c.duckdb_type_alias ≡ logical_type_alias c.format_type

table_of-HasTableRights :
    (is_view : Bool) (id name : Option Text) (t : Table)
    → table_of is_view id name ≡ ok t
    → HasTableRights t
unfolding table_of table_capabilities has_capability
table_of-HasTableRights is_view none name t h = cc
table_of-HasTableRights is_view (some id) none t h = cc
table_of-HasTableRights is_view (some id) (some name) t h = rw (← ok-injective h) (rights is_view)
  where
    rights :
        (b : Bool)
        → HasTableRights (record { id = id; name = name; capabilities = table_capabilities b })
    rights true = record { row_id = refl; insert = refl; update = refl; delete = refl }
    rights false = record { row_id = refl; insert = refl; update = refl; delete = refl }

column_of-HasColumnRights :
    (format_type : Text) (is_array calculated : Bool) (id name : Option Text) (c : Column)
    → column_of format_type is_array calculated id name ≡ ok c
    → HasColumnRights c
unfolding column_of column_capabilities has_capability
column_of-HasColumnRights format_type is_array calculated none name c h = cc
column_of-HasColumnRights format_type is_array calculated (some id) none c h = cc
column_of-HasColumnRights format_type is_array calculated (some id) (some name) c h =
    rw (← ok-injective h) (record {
      editable = editable is_array calculated;
      system = system is_array calculated;
      filter = filter is_array calculated;
      typed = refl;
      aliased = refl;
    })
  where
    editable :
        (a b : Bool)
        → has_capability (column_capabilities b a) column_editable
          ≡ not (has_capability (column_capabilities b a) column_generated)
    editable true true = refl
    editable true false = refl
    editable false true = refl
    editable false false = refl

    system : (a b : Bool) → has_capability (column_capabilities b a) column_system ≡ false
    system true true = refl
    system true false = refl
    system false true = refl
    system false false = refl

    filter : (a b : Bool) → has_capability (column_capabilities b a) column_filter_equality ≡ not a
    filter true true = refl
    filter true false = refl
    filter false true = refl
    filter false false = refl

module _ {N F : Type 0} (serde : Serde N F) where
  All-page_from_json :
      {T : Type 0} (P : T → Type 0) (item : Value N → Result T) (body : Text) (page : Page T)
      → ((v : Value N) (t : T) → item v ≡ ok t → P t)
      → page_from_json serde item body ≡ ok page
      → All P page.items
  unfolding page_from_json
  All-page_from_json P item body page each h =
      let (root, _, h₁) = and_then-eq-ok (serde.from_str body) _ h in
      let (values, _, h₂) = and_then-eq-ok (ok_or missing_items (get_array "items" root)) _ h₁ in
      let (read, collected, h₃) = and_then-eq-ok (collect item values) _ h₂ in
      let same : page.items ≡ read = cc in rw same (All-collect P item values read each collected)

  -- Every table of a page can be inserted into, updated and deleted from, unless it is a view,
  -- which can be none of these; each has row ids.
  pub table_list_from_json-HasTableRights :
      (body : Text) (page : Page Table)
      → table_list_from_json serde body ≡ ok page
      → All HasTableRights page.items
  unfolding table_list_from_json
  table_list_from_json-HasTableRights body page h =
      All-page_from_json HasTableRights table_from_item body page
        (λ v t. table_of-HasTableRights _ _ _ t) h

  -- Every column of a page is either computed or editable, is no system column, can be filtered on
  -- exactly if it holds no arrays, and has the DuckDB type and alias of its format.
  pub column_list_from_json-HasColumnRights :
      (body : Text) (page : Page Column)
      → column_list_from_json serde body ≡ ok page
      → All HasColumnRights page.items
  unfolding column_list_from_json
  column_list_from_json-HasColumnRights body page h =
      All-page_from_json HasColumnRights column_from_item body page
        (λ v c. column_of-HasColumnRights _ _ _ _ _ c) h
