-- ===== src/Mutation/Payload/Values.antt =====
-- Which values reach the service.
use duckdb_superhuman_docs.Base.{
  ◌≡◌, inl, inr, Text, some, false, some, ok, and_then-eq-ok, ok-injective, err-ne-ok, Bool-cases,
  ok_or, ◌||◌, arith, missing_writable_field,
}
use duckdb_superhuman_docs.Base.Ascii.{to_ascii_lowercase}
use duckdb_superhuman_docs.Json.{Value}
use duckdb_superhuman_docs.Json.Access.{is_null, is_array, is_object}
use duckdb_superhuman_docs.Mutation.Payload.{simple_cell_value, primitive_only, writable_value}

-- A JSON string, number or boolean.
abbrev pub IsPrimitive : {N : Type 0} → Value N → Type 0
IsPrimitive v = (is_null v ≡ false) × (is_array v ≡ false) × (is_object v ≡ false)

primitive_only-IsPrimitive :
    {N : Type 0} (format_type : Text) (value simple : Value N)
    → primitive_only format_type value ≡ ok simple
    → IsPrimitive simple
unfolding primitive_only
primitive_only-IsPrimitive format_type value simple h =
    elim (Bool-cases (is_object value || is_array value || is_null value)) [
      | inl bad ↦ absurd (err-ne-ok (rw bad at h))
      | inr good ↦ rw (← ok-injective (rw good at h)) (ground arith, ground arith, ground arith)
    ]

-- What is sent for a cell is a primitive: the reduction of a rich value never yields null, an array
-- or an object, and a null is refused.
pub simple_cell_value-IsPrimitive :
    {N : Type 0} (format_type : Text) (value simple : Value N)
    → simple_cell_value format_type value ≡ ok simple
    → IsPrimitive simple × (is_null value ≡ false)
unfolding simple_cell_value
simple_cell_value-IsPrimitive format_type value simple h = elim (Bool-cases (is_null value)) [
  | inl null' ↦ absurd (err-ne-ok (rw null' at h))
  | inr present ↦
      let (s, found, h') =
        and_then-eq-ok
          (ok_or (missing_writable_field format_type)
            (writable_value (to_ascii_lowercase format_type) value))
          (primitive_only format_type) (rw present at h) in
      (primitive_only-IsPrimitive format_type s simple h', present)
]
