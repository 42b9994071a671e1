-- ===== src/Ffi/Structs.antt =====
-- The structs of src/ffi.rs that the extension hands to DuckDB, with their pointers.
use duckdb_superhuman_docs.Base.{ℕ, Bool, true, false}
use duckdb_superhuman_docs.Memory.{Ptr, null_ptr}
use duckdb_superhuman_docs.Memory.Strings.{FfiString, empty_string}

-- `RustExtColumn`
pub record FfiColumn : Type 0 where
  pub handle : Ptr
  pub name : FfiString
  pub logical_type : FfiString
  pub value_type_alias : FfiString
  pub capabilities : ℕ

-- `RustExtCatalogTable`, with the columns' pointer and count as a pair
pub record FfiCatalogTable : Type 0 where
  pub handle : Ptr
  pub name : FfiString
  pub capabilities : ℕ
  pub columns : Ptr × ℕ

-- `RustExtCatalog`
pub record FfiCatalog : Type 0 where
  pub tables : Ptr × ℕ

-- `RustExtScanRow`
pub record FfiScanRow : Type 0 where
  pub handle : Ptr
  pub row_id : FfiString

-- `RustExtScanBatch`
pub record FfiScanBatch : Type 0 where
  pub rows : Ptr × ℕ
  pub finished : Bool

-- `RustExtArrayValue`
pub record FfiArrayValue : Type 0 where
  pub is_null : Bool
  pub value : FfiString

-- `RustExtScanValue`
pub record FfiScanValue : Type 0 where
  pub is_null : Bool
  pub value_owned : Bool
  pub value : FfiString
  pub array_values : Ptr × ℕ

-- `RustExtScanValue::default()`
abbrev pub default_scan_value : FfiScanValue
default_scan_value = record {
  is_null = true;
  value_owned = false;
  value = empty_string;
  array_values = (null_ptr, 0);
}

-- `RustExtNamedValue`, with the fields of its value that a secret's entry sets
pub record FfiNamedValue : Type 0 where
  pub name : FfiString
  pub value_type : ℕ
  pub string_value : FfiString

-- `RustExtSecretCreateResult`
pub record FfiSecret : Type 0 where
  pub scope : Ptr × ℕ
  pub entries : Ptr × ℕ
  pub redact_keys : Ptr × ℕ

-- `RustExtAttachConfig`
pub record FfiAttachConfig : Type 0 where
  pub handle : Ptr
  pub database_name : FfiString
