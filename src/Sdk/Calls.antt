-- ===== src/Sdk/Calls.antt =====
-- The calls that the source makes of the SDK, with the inputs that it fills in, and the interface
-- of src/sdk.rs that the other components use. `F` is `f64` and `W` the state of the world.
use duckdb_superhuman_docs.Base.{ℕ, Text, List, Option, Bool, Result, Exec}

-- `operations::ScalarValue`
pub data ScalarValue (F : Type 0) : Type 0 where
  boolean : Bool → ScalarValue F
  number : F → ScalarValue F
  text : Text → ScalarValue F

-- `operations::Value`
pub data CellValue (F : Type 0) : Type 0 where
  scalar : ScalarValue F → CellValue F
  flat_list : List (ScalarValue F) → CellValue F

pub record CellEdit (F : Type 0) : Type 0 where
  pub column : Text
  pub value : CellValue F

pub record RowEdit (F : Type 0) : Type 0 where
  pub cells : List (CellEdit F)

pub record RowsUpsert (F : Type 0) : Type 0 where
  pub rows : List (RowEdit F)
  pub key_columns : Option (List Text)

pub record RowUpdate (F : Type 0) : Type 0 where
  pub row : RowEdit F

pub data RowsSortBy : Type 0 where
  created_at natural updated_at : RowsSortBy

pub data ValueFormat : Type 0 where
  rich : ValueFormat

pub record ListRowsInput : Type 0 where
  pub doc_id : Text
  pub table_id_or_name : Text
  pub query : Option Text
  pub sort_by : Option RowsSortBy
  pub use_column_names : Option Bool
  pub value_format : Option ValueFormat
  pub visible_only : Option Bool
  pub limit : Option ℕ
  pub page_token : Option Text
  pub sync_token : Option Text

pub record ListColumnsInput : Type 0 where
  pub doc_id : Text
  pub table_id_or_name : Text
  pub limit : Option ℕ
  pub page_token : Option Text
  pub visible_only : Option Bool

-- `sort_by` and `table_types`, which the source always leaves `None`, are not among the fields.
pub record ListTablesInput : Type 0 where
  pub doc_id : Text
  pub limit : Option ℕ
  pub page_token : Option Text

pub record UpsertRowsInput (F : Type 0) : Type 0 where
  pub doc_id : Text
  pub table_id_or_name : Text
  pub disable_parsing : Option Bool
  pub payload : RowsUpsert F

pub record UpdateRowInput (F : Type 0) : Type 0 where
  pub doc_id : Text
  pub table_id_or_name : Text
  pub row_id_or_name : Text
  pub disable_parsing : Option Bool
  pub payload : RowUpdate F

pub record DeleteRowsInput : Type 0 where
  pub doc_id : Text
  pub table_id_or_name : Text
  pub row_ids : List Text

pub data Call (F : Type 0) : Type 0 where
  list_rows : ListRowsInput → Call F
  list_columns : ListColumnsInput → Call F
  list_tables : ListTablesInput → Call F
  upsert_rows : UpsertRowsInput F → Call F
  update_row : UpdateRowInput F → Call F
  delete_rows : DeleteRowsInput → Call F
  read_mutation_status : Text → Call F
  -- the URL, and `degrade_gracefully`
  resolve_browser_link : Text → Option Bool → Call F
  whoami : Call F

-- `SdkClient`: `execute` and `execute_accepting_status`
pub record SdkClient (W F : Type 0) : Type 0 where
  pub execute : Call F → Exec W Text
  pub execute_accepting_status : ℕ → Call F → Exec W (Option Text)

-- `SdkClient::at(base_url, credential)`, and the SDK's `DEFAULT_BASE_URL`
pub record Network (W F : Type 0) : Type 0 where
  pub default_base_url : Text
  pub at : Text → Text → Result (SdkClient W F)
