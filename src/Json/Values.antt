-- ===== src/Json/Values.antt =====
-- `serde_json::Value` over a type of numbers. An object is a list of its entries.
use duckdb_superhuman_docs.Base.{ℕ, Text, List, [], ◌∷◌, Option, Bool, Result}

mutual
  pub data Value (N : Type 0) : Type 0 where
    null : Value N
    bool : Bool → Value N
    number : N → Value N
    string : Text → Value N
    array : Items N → Value N
    object : Fields N → Value N

  pub data Items (N : Type 0) : Type 0 where
    nil : Items N
    cons : Value N → Items N → Items N

  pub data Fields (N : Type 0) : Type 0 where
    end : Fields N
    field : Text → Value N → Fields N → Fields N

abbrev pub items : {N : Type 0} → Items N → List (Value N)
items nil = []
items (cons v vs) = v ∷ items vs

abbrev pub entries : {N : Type 0} → Fields N → List (Text × Value N)
entries end = []
entries (field k v fs) = (k, v) ∷ entries fs

-- `i64`, a signed number with its sign apart: `negsuc n` is -(n + 1).
pub data ℤ : Type 0 where
  pos : ℕ → ℤ
  negsuc : ℕ → ℤ

-- What the source calls of serde_json and of `f64`: `N` is its number type, `F` is `f64`.
pub record Serde (N F : Type 0) : Type 0 where
  -- `serde_json::from_str`
  pub from_str : Text → Result (Value N)
  -- `Value::to_string`
  pub value_text : Value N → Text
  -- `json!(i64)`, `json!(u64)`, `json!(f64)`
  pub json_i64 : ℤ → Value N
  pub json_u64 : ℕ → Value N
  pub json_f64 : F → Value N
  -- `Number::as_f64`
  pub as_f64 : N → Option F
  -- `f64::to_string` and `str::parse::<f64>`
  pub float_text : F → Text
  pub parse_f64 : Text → Option F
  -- `value / 100.0`
  pub hundredth : F → F
