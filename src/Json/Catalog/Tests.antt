-- ===== src/Json/Catalog/Tests.antt =====
-- The catalog of a small document, and the theorems about names and rights at it.
use duckdb_superhuman_docs.Base.{◌≡◌, refl, List, [], ◌∷◌, String, some, ok, codes, false, true, ℕ}
use duckdb_superhuman_docs.Base.Decimal.{to_string}
use duckdb_superhuman_docs.Base.Ascii.{eq_ignore_ascii_case}
use duckdb_superhuman_docs.Json.{Serde, bool}
use duckdb_superhuman_docs.Json.Access.{get, get_array, get_str, get_bool, get_object}
use duckdb_superhuman_docs.Samples.{sample_serde, read_known, obj, arr, str}
use duckdb_superhuman_docs.Model.{Column, Table, Page}
use duckdb_superhuman_docs.Json.Catalog.Tables.{table_list_from_json, column_list_from_json}
use duckdb_superhuman_docs.Json.Catalog.Tables.Items.{
  IsPage, IsTable, IsColumn, table_list_from_json-IsPage, column_list_from_json-IsPage,
}
use duckdb_superhuman_docs.Json.Catalog.Types.{logical_type, logical_type_alias}
use duckdb_superhuman_docs.Json.Catalog.Naming.{prepare_columns}
use duckdb_superhuman_docs.Json.Catalog.Naming.Unique.{
  IsPrepared, Distinct, prepare_columns-IsPrepared, prepare_columns-kept,
}

abbrev named : String → Column
named name = record {
  id = codes "c";
  name = codes name;
  format_type = codes "text";
  duckdb_type = codes "VARCHAR";
  duckdb_type_alias = [];
  is_array = false;
  capabilities = 12;
}

names :
    prepare_columns (named "A" ∷ named "a" ∷ named "" ∷ named "a_2" ∷ [])
    ≡ some (named "A" ∷ named "a_2" ∷ named "column" ∷ named "a_2_2" ∷ [])
unfolding prepare_columns to_string
names = refl

prepare_columns-IsPrepared_example :
    (prepared : List Column) × (prepare_columns (named "A" ∷ named "a" ∷ []) ≡ some prepared)
    × IsPrepared (named "A" ∷ named "a" ∷ []) prepared
prepare_columns-IsPrepared_example = prepare_columns-IsPrepared (named "A" ∷ named "a" ∷ [])

differing : Distinct (named "A" ∷ named "b" ∷ [])
unfolding eq_ignore_ascii_case
differing = ((refl, tt), (tt, tt))

prepare_columns-kept_example :
    prepare_columns (named "A" ∷ named "b" ∷ []) ≡ some (named "A" ∷ named "b" ∷ [])
prepare_columns-kept_example =
    prepare_columns-kept (named "A" ∷ named "b" ∷ []) differing (refl, (refl, tt))

abbrev serde : Serde ℕ ℕ
serde = sample_serde (
    (
      "tables",
      obj (
          (
            "items",
            arr (
                obj (("id", str "t1") ∷ ("name", str "T") ∷ ("tableType", str "view") ∷ [])
                ∷ obj (("id", str "t2") ∷ ("name", str "U") ∷ ("tableType", str "Table") ∷ [])
                ∷ []),
          )
          ∷ []),
    )
    ∷ (
      "columns",
      obj (
          (
            "items",
            arr (
                obj (("id", str "c1") ∷ ("name", str "C") ∷ ("calculated", bool true) ∷ [])
                ∷ obj (
                    ("id", str "c2")
                    ∷ ("name", str "D")
                    ∷ ("format", obj (("type", str "number") ∷ ("isArray", bool true) ∷ []))
                    ∷ [])
                ∷ []),
          )
          ∷ []),
    )
    ∷ [])

abbrev tables : Page Table
tables = record {
  items =
      record { id = codes "t1"; name = codes "T"; capabilities = 17 }
      ∷ record { id = codes "t2"; name = codes "U"; capabilities = 30 }
      ∷ [];
  next_page_token = [];
}

read_tables : table_list_from_json serde (codes "tables") ≡ ok tables
unfolding table_list_from_json read_known get_array get get_str eq_ignore_ascii_case
read_tables = refl

abbrev columns : Page Column
columns = record {
  items =
      record {
        id = codes "c1";
        name = codes "C";
        format_type = codes "text";
        duckdb_type = codes "VARCHAR";
        duckdb_type_alias = [];
        is_array = false;
        capabilities = 9;
      }
      ∷ record {
        id = codes "c2";
        name = codes "D";
        format_type = codes "number";
        duckdb_type = logical_type (codes "number") true;
        duckdb_type_alias = logical_type_alias (codes "number");
        is_array = true;
        capabilities = 4;
      }
      ∷ [];
  next_page_token = [];
}

read_columns : column_list_from_json serde (codes "columns") ≡ ok columns
unfolding column_list_from_json read_known get_array get get_str get_object logical_type
    logical_type_alias get_bool
read_columns = refl

table_list_from_json-IsPage_example : IsPage serde IsTable (codes "tables") tables
table_list_from_json-IsPage_example =
    table_list_from_json-IsPage serde (codes "tables") tables read_tables

column_list_from_json-IsPage_example : IsPage serde IsColumn (codes "columns") columns
column_list_from_json-IsPage_example =
    column_list_from_json-IsPage serde (codes "columns") columns read_columns
