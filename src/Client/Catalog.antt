-- ===== src/Client/Catalog.antt =====
-- `load_columns` and `load_catalog` of src/client/catalog.rs. A loop ends only when the service
-- sends no further page, so the loops take fuel, and `none` means that the fuel ran out. The
-- catalog is the list of tables with their columns that `ffi_catalog_table` turns into handles.
pub mod Listing
pub mod Columns
pub mod Entries
pub mod Tests
use duckdb_superhuman_docs.Base.{
  ℕ, zero, suc, Text, List, [], ◌∷◌, ◌++◌, Bool, false, Option, none, some, Result, ok, is_empty,
  if◌then◌else◌,
}
use duckdb_superhuman_docs.Json.{Serde}
use duckdb_superhuman_docs.Json.Catalog.Tables.{table_list_from_json, column_list_from_json}
use duckdb_superhuman_docs.Json.Catalog.Types.{append_row_metadata}
use duckdb_superhuman_docs.Json.Catalog.Naming.{prepare_columns}
use duckdb_superhuman_docs.Model.{ClientConfig, Table, Column, Page}
use duckdb_superhuman_docs.Sdk.{sdk_client_new, non_empty_string}
use duckdb_superhuman_docs.Sdk.Calls.{Call, SdkClient, Network, list_columns, list_tables}
use duckdb_superhuman_docs.Mutation.Rows.{Waits, after, given}

module _ {F : Type 0} where
  pub columns_call : Text → Text → Text → Call F
  columns_call doc_id table_id page_token = list_columns (record {
    doc_id = doc_id;
    table_id_or_name = table_id;
    limit = some 100;
    page_token = non_empty_string page_token;
    visible_only = some false;
  })

  pub tables_call : Text → Text → Call F
  tables_call doc_id page_token =
      list_tables
        (record { doc_id = doc_id; limit = some 100; page_token = non_empty_string page_token })

-- what `load_columns` does with the columns of all the pages
prepared : Bool → List Column → Option (List Column)
prepared include_system_columns all =
    prepare_columns (if include_system_columns then append_row_metadata all else all)

module _ {N F W : Type 0} (serde : Serde N F) where
  module _ (sdk : SdkClient W F) (doc_id : Text) where
    -- one request of the loop over the columns
    pub column_page : Text → Text → W → Waits W (Page Column)
    column_page table_id page_token w =
        after (some (sdk.execute (columns_call doc_id table_id page_token) w))
          λ body w'. some (column_list_from_json serde body, w')

    -- the loop of `load_columns`, with the columns so far
    pub columns_from : ℕ → Text → List Column → Text → W → Waits W (List Column)
    columns_from zero table_id all page_token w = none
    columns_from (suc fuel) table_id all page_token w =
        after (column_page table_id page_token w) λ page w'.
          if is_empty page.next_page_token
          then some (ok (all ++ page.items), w')
          else columns_from fuel table_id (all ++ page.items) page.next_page_token w'

    finish : Option (List Column) → W → Waits W (List Column)
    finish none w = none
    finish (some all) w = some (ok all, w)

    pub load_columns : ℕ → Text → Bool → W → Waits W (List Column)
    load_columns fuel table_id include_system_columns w =
        after (columns_from fuel table_id [] [] w)
          λ all w'. finish (prepared include_system_columns all) w'

    -- the loop over the tables of a page, with the tables so far
    tables_of_page :
        ℕ
        → Bool
        → List (Table × List Column)
        → List Table
        → W
        → Waits W (List (Table × List Column))
    tables_of_page fuel include_system_columns all [] w = some (ok all, w)
    tables_of_page fuel include_system_columns all (table ∷ tables) w =
        after (load_columns fuel table.id include_system_columns w) λ columns w'.
          tables_of_page fuel include_system_columns (all ++ (table, columns) ∷ []) tables w'

    pub table_page : Text → W → Waits W (Page Table)
    table_page page_token w =
        after (some (sdk.execute (tables_call doc_id page_token) w))
          λ body w'. some (table_list_from_json serde body, w')

    -- the outer loop of `load_catalog`; `fuel` is for each table, the first argument for the pages
    tables_from :
        ℕ → ℕ → Bool → List (Table × List Column) → Text → W → Waits W (List (Table × List Column))
    tables_from zero fuel include_system_columns all page_token w = none
    tables_from (suc pages) fuel include_system_columns all page_token w =
        after (table_page page_token w) λ page w'.
          after (tables_of_page fuel include_system_columns all page.items w') λ all' w''.
            if is_empty page.next_page_token
            then some (ok all', w'')
            else tables_from pages fuel include_system_columns all' page.next_page_token w''

  pub load_catalog : Network W F → ℕ → ℕ → ClientConfig → W → Waits W (List (Table × List Column))
  load_catalog network pages fuel config w =
      given (sdk_client_new network config) w
        λ sdk. tables_from sdk config.resource pages fuel config.include_system_columns [] [] w
