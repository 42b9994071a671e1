-- ===== src/Mutation/Payload/Sent.antt =====
-- What the cells that reach the service stand for.
use duckdb_superhuman_docs.Base.{
  ◌≡◌, ◌≢◌, refl, ◌⊎◌, inl, inr, String, Text, List, [], Paired, Paired-collect, not_representable,
  if◌then◌else◌, true, false, some, ok, and_then, and_then-eq-ok, ok-injective, err-ne-ok,
  ok_or-eq-ok, Bool-cases, collect, ok_or, expects_array,
}
use duckdb_superhuman_docs.Json.{Value, Serde, number, bool, string, null, array, object}
use duckdb_superhuman_docs.Json.Access.{is_null, is_array, is_object, as_array, get}
use duckdb_superhuman_docs.Model.{Column}
use duckdb_superhuman_docs.Ffi.{InputValue}
use duckdb_superhuman_docs.Sdk.Calls.{ScalarValue, CellValue, scalar, flat_list, boolean, text}
use duckdb_superhuman_docs.Mutation.Payload.{
  simple_cell_value, scalar_value, element_value, cell_value, input_value_json,
}
use duckdb_superhuman_docs.Mutation.Payload.Values.{simple_cell_value-IsPrimitive}
use duckdb_superhuman_docs.Mutation.Payload.Parts.{
  IsPart, simple_cell_value-IsPart, IsPart-is_array,
}

module _ {N F : Type 0} (serde : Serde N F) where
  -- A scalar of the SDK that stands for a JSON value: the same boolean or text, or the `f64`.
  abbrev pub StandsFor : ScalarValue F → Value N → Type 0
  StandsFor (boolean b) v = v ≡ bool b
  StandsFor (text t) v = v ≡ string t
  StandsFor (ScalarValue.number f) v = (n : N) × (v ≡ number n) × (serde.as_f64 n ≡ some f)

  -- A scalar that is sent for a value that is no array and not null: it stands for the value itself
  -- or, if that is an object, for one of its fields that is not an empty text.
  abbrev pub IsSent : Value N → ScalarValue F → Type 0
  IsSent v s =
      (is_array v ≡ false)
      × (is_null v ≡ false)
      × (StandsFor s v
          ⊎ ((name : String) × (field : Value N) × (is_object v ≡ true)
              × (get name v ≡ some field)
              × (field ≢ string [])
              × StandsFor s field))

  -- What a cell is for a value: one scalar, or one for each element of an array.
  abbrev pub IsCell : Column → Value N → CellValue F → Type 0
  IsCell column v (scalar s) = (column.is_array ≡ false) × IsSent v s
  IsCell column v (flat_list list) =
      (column.is_array ≡ true)
      × (values : List (Value N)) × (as_array v ≡ some values)
      × Paired IsSent values list

  -- A scalar stands for the value that it is made of.
  scalar_value-StandsFor :
      (v : Value N) (s : ScalarValue F) → scalar_value serde v ≡ ok s → StandsFor s v
  unfolding scalar_value
  scalar_value-StandsFor (bool b) s h = rw (← ok-injective h) refl
  scalar_value-StandsFor (string t) s h = rw (← ok-injective h) refl
  scalar_value-StandsFor (number n) s h =
      let (f, e, h') =
        and_then-eq-ok (ok_or (not_representable (serde.value_text (number n))) (serde.as_f64 n)) _
          h in
      rw (← ok-injective h') (n, refl, ok_or-eq-ok _ (serde.as_f64 n) e)
  scalar_value-StandsFor null s h = absurd (err-ne-ok h)
  scalar_value-StandsFor (array vs) s h = absurd (err-ne-ok h)
  scalar_value-StandsFor (object fs) s h = absurd (err-ne-ok h)

  element_value-IsSent :
      (format_type : Text) (v : Value N) (s : ScalarValue F)
      → element_value serde format_type v ≡ ok s
      → IsSent v s
  unfolding element_value
  element_value-IsSent format_type v s h =
      let (simple, e, h₁) =
        and_then-eq-ok (simple_cell_value format_type v) (scalar_value serde) h in
      let ((_, flat, _), present) = simple_cell_value-IsPrimitive format_type v simple e in
      let part = simple_cell_value-IsPart format_type v simple e in
      let stands = scalar_value-StandsFor simple s h₁ in
      (IsPart-is_array v simple part flat, present, either part stands)
    where
      either :
          {simple : Value N}
          → IsPart v simple
          → StandsFor s simple
          → StandsFor s v
            ⊎ ((name : String) × (field : Value N) × (is_object v ≡ true)
                × (get name v ≡ some field)
                × (field ≢ string [])
                × StandsFor s field)
      either (inl same) stands = inl (rw same stands)
      either {simple} (inr (name, o, e, ne)) stands = inr (name, simple, o, e, ne, stands)

  branches-IsCell :
      (column : Column) (json : Value N) (v : CellValue F)
      → (if column.is_array
          then (and_then
              (ok_or (expects_array column.name (serde.value_text json)) (as_array json))
              λ values.
                and_then
                  (collect (element_value serde column.format_type) values)
                  λ list. ok (flat_list list))
          else and_then (element_value serde column.format_type json) λ one. ok (scalar one))
        ≡ ok v
      → IsCell column json v
  branches-IsCell column json v h₁ = elim (Bool-cases column.is_array) [
    | inl array' ↦
        let (values, listed, h₂) =
          and_then-eq-ok (ok_or (expects_array column.name (serde.value_text json)) (as_array json))
            (λ values.
              and_then (collect (element_value serde column.format_type) values)
                λ list. ok (flat_list list))
            (rw array' at h₁) in
        let (list, reduced, h₃) =
          and_then-eq-ok (collect (element_value serde column.format_type) values)
            (λ list. ok (flat_list list)) h₂ in
        rw (← ok-injective h₃) (
          array',
          values,
          ok_or-eq-ok _ (as_array json) listed,
          Paired-collect IsSent (element_value serde column.format_type) values list
              (element_value-IsSent column.format_type) reduced,
        )
    | inr scalar' ↦
        let (one, reduced, h₂) =
          and_then-eq-ok (element_value serde column.format_type json) (λ one. ok (scalar one))
            (rw scalar' at h₁) in
        rw (← ok-injective h₂) (scalar', element_value-IsSent column.format_type json one reduced)
  ]

  -- A cell that is sent, whatever the format and the value that DuckDB passed: an array column takes
  -- an array and nothing else, and the cell has a scalar for each of its elements, in their order;
  -- another column takes no array, and the cell is one scalar. No element and no value is null or an
  -- array, and a scalar is the boolean, the text or the `f64` of the number that the value is, or of
  -- a field of the object that it is.
  pub cell_value-IsCell :
      (column : Column) (input : InputValue F) (v : CellValue F)
      → cell_value serde column input ≡ ok v
      → (json : Value N) × (input_value_json serde input ≡ ok json) × IsCell column json v
  unfolding cell_value
  cell_value-IsCell column input v h =
      let (json, read, h₁) = and_then-eq-ok (input_value_json serde input) _ h in
      (json, read, branches-IsCell column json v h₁)
