-- ===== src/Client/Catalog/Tests.antt =====
-- A catalog of one table with two pages of columns, and the theorems about catalogs at it.
use duckdb_superhuman_docs.Base.{
  ◌≡◌, ◌≤◌, ◌↔◌, refl, List, [], ◌∷◌, String, some, ok, codes, false, true, All, ℕ,
}
use duckdb_superhuman_docs.Base.Decimal.{to_string}
use duckdb_superhuman_docs.Json.{Serde}
use duckdb_superhuman_docs.Json.Access.{get_array, get_str, get_bool, get_object}
use duckdb_superhuman_docs.Json.Catalog.Tables.{table_list_from_json, column_list_from_json}
use duckdb_superhuman_docs.Json.Catalog.Types.{logical_type_alias, append_row_metadata}
use duckdb_superhuman_docs.Json.Catalog.Naming.{prepare_columns}
use duckdb_superhuman_docs.Model.{Column, Table}
use duckdb_superhuman_docs.Samples.{
  sample_serde, sample_network, sample_sdk, sample_config, world, obj, arr, str, read_known, answer,
}
use duckdb_superhuman_docs.Sdk.{sdk_client_new}
use duckdb_superhuman_docs.Client.Catalog.{
  load_catalog, load_columns, columns_from, tables_from, tables_of_page, table_page, column_page,
  prepared, finish,
}
use duckdb_superhuman_docs.Client.Catalog.Entries.{IsEntry, load_catalog-IsEntry}
use duckdb_superhuman_docs.Client.Catalog.Listing.{Pages, columns_from-Pages_iff}

abbrev pub serde : Serde ℕ ℕ
serde = sample_serde (
    ("tables", obj (("items", arr (obj (("id", str "t1") ∷ ("name", str "T") ∷ []) ∷ [])) ∷ []))
    ∷ (
      "page 1",
      obj (
          ("items", arr (obj (("id", str "c1") ∷ ("name", str "C") ∷ []) ∷ []))
          ∷ ("nextPageToken", str "p2")
          ∷ []),
    )
    ∷ ("page 2", obj (("items", arr (obj (("id", str "c2") ∷ ("name", str "c") ∷ []) ∷ [])) ∷ []))
    ∷ [])

abbrev column : String → String → Column
column id name = record {
  id = codes id;
  name = codes name;
  format_type = codes "text";
  duckdb_type = codes "VARCHAR";
  duckdb_type_alias = [];
  is_array = false;
  capabilities = 12;
}

abbrev time_column : String → Column
time_column name = record {
  id = codes name;
  name = codes name;
  format_type = codes "datetime";
  duckdb_type = codes "TIMESTAMPTZ";
  duckdb_type_alias = [];
  is_array = false;
  capabilities = 19;
}

abbrev pub catalog : List (Table × List Column)
catalog =
    (
      record { id = codes "t1"; name = codes "T"; capabilities = 30 },
      column "c1" "C" ∷ column "c2" "c_2" ∷ time_column "createdAt" ∷ time_column "updatedAt" ∷ [],
    )
    ∷ []

pub loading :
    load_catalog serde sample_network 2 2 sample_config
      (world ("tables" ∷ "page 1" ∷ "page 2" ∷ []))
    ≡ some (ok catalog, world [])
unfolding load_catalog load_columns columns_from tables_from tables_of_page table_page column_page
    prepared finish sdk_client_new answer table_list_from_json read_known get_array get_str
    column_list_from_json prepare_columns append_row_metadata get_object logical_type_alias
    to_string get_bool
loading = refl

load_catalog-IsEntry_example : All (IsEntry true) catalog
load_catalog-IsEntry_example =
    load_catalog-IsEntry serde sample_network 2 2 sample_config catalog
      (world ("tables" ∷ "page 1" ∷ "page 2" ∷ [])) (world []) loading

columns_from-Pages_iff_example :
    (columns_from serde sample_sdk
        (codes "doc")
        2
        (codes "t1")
        []
        []
        (world ("page 1" ∷ "page 2" ∷ []))
      ≡ some (ok (column "c1" "C" ∷ column "c2" "c" ∷ []), world []))
    ↔ ((n : ℕ) × (n ≤ 2)
        × Pages serde sample_sdk
            (codes "doc")
            (codes "t1")
            n
            []
            (world ("page 1" ∷ "page 2" ∷ []))
            (column "c1" "C" ∷ column "c2" "c" ∷ [])
            (world []))
columns_from-Pages_iff_example =
    columns_from-Pages_iff serde sample_sdk (codes "doc") (codes "t1") 2
      (column "c1" "C" ∷ column "c2" "c" ∷ []) (world ("page 1" ∷ "page 2" ∷ [])) (world [])
