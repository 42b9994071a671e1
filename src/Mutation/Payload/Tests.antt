-- ===== src/Mutation/Payload/Tests.antt =====
-- Payloads of small writes, and the theorems about payloads at them.
use duckdb_superhuman_docs.Base.{
  ℕ, ◌/◌, ◌≡◌, ◌↔◌, ◌≤◌, refl, List, [], ◌∷◌, String, none, some, ok, err, codes, true, false,
  arith, and_then, collect, length,
}
use duckdb_superhuman_docs.Json.{Value, Serde, pos}
use duckdb_superhuman_docs.Json.Access.{get}
use duckdb_superhuman_docs.Base.{one_of, update_to_null}
use duckdb_superhuman_docs.Base.Ascii.{to_ascii_lowercase}
use duckdb_superhuman_docs.Model.{Column}
use duckdb_superhuman_docs.Model.Capability.{has_capability, table_insert}
use duckdb_superhuman_docs.Ffi.{InputValue, WriteColumn}
use duckdb_superhuman_docs.Sdk.Calls.{CellEdit, RowsUpsert, scalar, text}
use duckdb_superhuman_docs.Samples.{sample_serde, read_known, obj, str}
use duckdb_superhuman_docs.Mutation.Payload.{
  write_cells, insert_payload, update_payload, cells, cell_edit, cell_value, element_value,
  simple_cell_value, primitive_only, writable_value, object_field, first_field, blank, scalar_value,
  input_value_json, insert_from, slice,
}
use duckdb_superhuman_docs.Mutation.Payload.Cells.{
  written, any_null, write_cells-written, write_cells-update_iff,
}
use duckdb_superhuman_docs.Mutation.Payload.Rows.{
  concat, insert_payload-rows, insert_payload-accepted,
}
use duckdb_superhuman_docs.Mutation.Payload.Values.{IsPrimitive, simple_cell_value-IsPrimitive}
use duckdb_superhuman_docs.Mutation.Payload.Sent.{IsCell, cell_value-IsCell}

abbrev serde : Serde ℕ ℕ
serde = sample_serde (("person", obj (("name", str "Ann") ∷ ("email", str "") ∷ [])) ∷ [])

abbrev column : String → String → Column
column id format = record {
  id = codes id;
  name = codes id;
  format_type = codes format;
  duckdb_type = codes "VARCHAR";
  duckdb_type_alias = [];
  is_array = false;
  capabilities = 12;
}

abbrev write : ℕ → String → String → WriteColumn
write capabilities id format = record {
  handle = some (column id format);
  capabilities = capabilities;
}

abbrev input : ℕ → String → InputValue ℕ
input kind s = record {
  value_type = kind;
  bool_value = false;
  int_value = pos 0;
  uint_value = 0;
  double_value = 0;
  string_value = codes s;
}

-- An editable text, a computed text, an editable person.
abbrev columns : List WriteColumn
columns = write 12 "c1" "text" ∷ write 9 "c2" "text" ∷ write 12 "c3" "Person" ∷ []

abbrev full_row : List (InputValue ℕ)
full_row = input 5 "a" ∷ input 5 "b" ∷ input 6 "person" ∷ []

abbrev null_row : List (InputValue ℕ)
null_row = input 0 "" ∷ input 0 "" ∷ input 6 "person" ∷ []

abbrev cell : String → String → CellEdit ℕ
cell id s = record { column = codes id; value = scalar (text (codes s)) }

writing : Unit {0}
unfolding insert_payload update_payload insert_from slice write_cells cells cell_edit cell_value
    element_value simple_cell_value primitive_only writable_value object_field first_field blank
    scalar_value input_value_json get one_of to_ascii_lowercase read_known has_capability
writing = tt

-- The person is reduced to its name, since its e-mail is empty.
insert_payload_test :
    insert_payload serde columns (concat (full_row ∷ null_row ∷ [])) 2 3 30
    ≡ ok (record {
      rows =
          record { cells = cell "c1" "a" ∷ cell "c3" "Ann" ∷ [] }
          ∷ record { cells = cell "c3" "Ann" ∷ [] }
          ∷ [];
      key_columns = none;
    })
unfolding writing
insert_payload_test = refl

update_payload_test : update_payload serde columns null_row 30 ≡ err update_to_null
unfolding writing
update_payload_test = refl

full_row_test :
    write_cells serde columns full_row true
    ≡ ok (record { cells = cell "c1" "a" ∷ cell "c3" "Ann" ∷ [] })
unfolding writing
full_row_test = refl

write_cells-written_example :
    write_cells serde columns null_row true
    ≡ and_then
        (collect (λ p. cell_edit serde p.0 p.1) (written columns null_row))
        (λ edits. ok (record { cells = edits }))
write_cells-written_example = write_cells-written serde columns null_row

write_cells-update_iff_example :
    (write_cells serde columns full_row false
      ≡ ok (record { cells = cell "c1" "a" ∷ cell "c3" "Ann" ∷ [] }))
    ↔ ((any_null columns full_row ≡ false)
        × (write_cells serde columns full_row true
            ≡ ok (record { cells = cell "c1" "a" ∷ cell "c3" "Ann" ∷ [] })))
write_cells-update_iff_example =
    write_cells-update_iff serde columns full_row
      (record { cells = cell "c1" "a" ∷ cell "c3" "Ann" ∷ [] })

can_insert : has_capability 30 table_insert ≡ true
unfolding has_capability
can_insert = refl

insert_payload-rows_example :
    insert_payload serde columns (concat (full_row ∷ null_row ∷ [])) 2 3 30
    ≡ and_then
        (collect (λ row. write_cells serde columns row true) (full_row ∷ null_row ∷ []))
        (λ rows. ok (record { rows = rows; key_columns = none }))
insert_payload-rows_example =
    insert_payload-rows serde columns 3 (full_row ∷ null_row ∷ []) 30 can_insert (omega arith)
      (refl, (refl, tt)) (omega arith)

abbrev accepted : RowsUpsert ℕ
accepted = record {
  rows =
      record { cells = cell "c1" "a" ∷ cell "c3" "Ann" ∷ [] }
      ∷ record { cells = cell "c3" "Ann" ∷ [] }
      ∷ [];
  key_columns = none;
}

insert_payload-accepted_example :
    (length accepted.rows ≡ 2)
    × (accepted.key_columns ≡ none)
    × (has_capability 30 table_insert ≡ true)
    × (length columns ≤ 3)
insert_payload-accepted_example =
    insert_payload-accepted serde columns 3 (concat (full_row ∷ null_row ∷ [])) 2 30 accepted
      insert_payload_test

reduced_test : simple_cell_value (codes "Person") (obj (("name", str "Ann") ∷ [])) ≡ ok (str "Ann")
unfolding writing
reduced_test = refl

simple_cell_value-IsPrimitive_example : IsPrimitive (str "Ann") × (false ≡ false)
simple_cell_value-IsPrimitive_example =
    simple_cell_value-IsPrimitive (codes "Person") (obj (("name", str "Ann") ∷ [])) (str "Ann")
      reduced_test

-- A number type whose `f64` keeps half of the digits.
abbrev coarse : Serde ℕ ℕ
coarse = record serde { as_f64 = λ n. some (n / 2) }

cell_value_test :
    cell_value serde (column "c" "person") (input 6 "person") ≡ ok (scalar (text (codes "Ann")))
unfolding writing
cell_value_test = refl

cell_value-IsCell_example :
    (json : Value ℕ) × (input_value_json serde (input 6 "person") ≡ ok json)
    × IsCell serde (column "c" "person") json (scalar (text (codes "Ann")))
cell_value-IsCell_example =
    cell_value-IsCell serde (column "c" "person") (input 6 "person") (scalar (text (codes "Ann")))
      cell_value_test
