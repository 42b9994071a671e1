-- ===== src/Ffi.antt =====
-- The values of src/ffi.rs that the DuckDB side passes to the extension. A string that is no UTF-8
-- reads as "", so a string is its text; a null handle is `none`.
pub mod Structs
pub mod Blocks
use duckdb_superhuman_docs.Base.{
  ℕ, Text, Bool, Option, Result, ok_or, codes, missing_pointer, String,
}
use duckdb_superhuman_docs.Json.{ℤ}
use duckdb_superhuman_docs.Model.{Column}

abbrev pub input_null : ℕ
input_null = 0

abbrev pub input_json : ℕ
input_json = 6

-- `RustExtInputValue`; `F` is `f64`
pub record InputValue (F : Type 0) : Type 0 where
  pub value_type : ℕ
  pub bool_value : Bool
  pub int_value : ℤ
  pub uint_value : ℕ
  pub double_value : F
  pub string_value : Text

-- `RustExtWriteColumn`
pub record WriteColumn : Type 0 where
  pub handle : Option Column
  pub capabilities : ℕ

-- `ref_from_raw(ptr, name)`
abbrev pub ref_from_raw : {A : Type 0} → Option A → String → Result A
ref_from_raw ptr name = ok_or (missing_pointer (codes name)) ptr
