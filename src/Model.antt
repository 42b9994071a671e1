-- ===== src/Model.antt =====
-- src/model.rs: the records that the parts exchange, and the capability bits of src/ffi.rs.
pub mod Capability
use duckdb_superhuman_docs.Base.{ℕ, Text, List, Bool}
use duckdb_superhuman_docs.Json.{Value}

pub record ClientConfig : Type 0 where
  pub resource : Text
  pub credential : Text
  pub endpoint : Text
  pub include_system_columns : Bool
  pub wait_for_mutations : Bool
  pub mutation_timeout_seconds : ℕ
  pub allow_mutation_warnings : Bool

pub record Table : Type 0 where
  pub id : Text
  pub name : Text
  pub capabilities : ℕ

pub record Column : Type 0 where
  pub id : Text
  pub name : Text
  pub format_type : Text
  pub duckdb_type : Text
  pub duckdb_type_alias : Text
  pub is_array : Bool
  pub capabilities : ℕ

pub record Cell (N : Type 0) : Type 0 where
  pub column_id : Text
  pub value : Value N

pub record Row (N : Type 0) : Type 0 where
  pub id : Text
  pub created_at : Text
  pub updated_at : Text
  pub deleted : Bool
  pub cells : List (Cell N)

pub record Page (T : Type 0) : Type 0 where
  pub items : List T
  pub next_page_token : Text

pub record RowsResponse (N : Type 0) : Type 0 where
  pub rows : List (Row N)
  pub next_page_token : Text
  pub next_sync_token : Text

pub record RowsRequest : Type 0 where
  pub page_token : Text
  pub query : Text
  pub sort_by : Text
  pub sync_token : Text
  pub limit : ℕ
