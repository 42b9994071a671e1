-- ===== src/Mutation/Payload/Cells.antt =====
-- Which cells a row edit holds.
use duckdb_superhuman_docs.Base.{
  ◌≡◌, ◌↔◌, refl, List, [], ◌∷◌, Bool, true, false, Result, ok, err, and_then, collect,
  and_then-eq-ok, Bool-cases, inl, inr, not, ◌&&◌, ◌||◌, ◌==◌, if◌then◌else◌, arith, update_to_null,
  err-ne-ok, true-ne-false,
}
use duckdb_superhuman_docs.Json.{Serde}
use duckdb_superhuman_docs.Model.Capability.{has_capability, column_editable}
use duckdb_superhuman_docs.Ffi.{InputValue, WriteColumn, input_null}
use duckdb_superhuman_docs.Sdk.Calls.{CellEdit, RowEdit}
use duckdb_superhuman_docs.Mutation.Payload.{cell_edit, cells, write_cells}

abbrev editable : WriteColumn → Bool
editable write = has_capability write.capabilities column_editable

module _ {F : Type 0} where
  abbrev null_input : InputValue F → Bool
  null_input input = input.value_type == input_null

  -- The columns that are written, with their values: those that are editable and not NULL.
  abbrev pub written : List WriteColumn → List (InputValue F) → List (WriteColumn × InputValue F)
  written (write ∷ columns) (input ∷ values) =
      let rest = written columns values in
      if not (editable write)
      then rest
      else if null_input input
      then rest
      else (write, input) ∷ rest
  written columns values = []

  -- Whether an editable column is NULL.
  abbrev pub any_null : List WriteColumn → List (InputValue F) → Bool
  any_null (write ∷ columns) (input ∷ values) =
      (editable write && null_input input) || any_null columns values
  any_null columns values = false

module _ {N F : Type 0} (serde : Serde N F) where
  abbrev edit : WriteColumn × InputValue F → Result (CellEdit F)
  edit p = cell_edit serde p.0 p.1

  cells-written :
      (columns : List WriteColumn) (values : List (InputValue F))
      → cells serde columns values true ≡ collect edit (written columns values)
  unfolding cells
  cells-written [] values = refl
  cells-written (write ∷ columns) [] = refl
  cells-written (write ∷ columns) (input ∷ values) = elim (Bool-cases (editable write)) [
    | inr no' ↦ rw (no', cells-written columns values)
    | inl yes' ↦ elim (Bool-cases (null_input input)) [
      | inl null' ↦ rw (yes', null', cells-written columns values)
      | inr value ↦ rw (yes', value, cells-written columns values)
    ]
  ]

  -- The cells of an inserted row are those of its editable columns whose values are not NULL, in the
  -- columns' order; the columns that are not editable and the NULLs are passed over.
  pub write_cells-written :
      (columns : List WriteColumn) (values : List (InputValue F))
      → write_cells serde columns values true
        ≡ and_then
            (collect (λ p. cell_edit serde p.0 p.1) (written columns values))
            (λ edits. ok (record { cells = edits }))
  unfolding write_cells
  write_cells-written columns values = rw (cells-written columns values)

  cells-update :
      (columns : List WriteColumn) (values : List (InputValue F)) (edits : List (CellEdit F))
      → cells serde columns values false ≡ ok edits
      → (any_null columns values ≡ false) × (cells serde columns values true ≡ ok edits)
  unfolding cells
  cells-update [] values edits h = (refl, h)
  cells-update (write ∷ columns) [] edits h = (refl, h)
  cells-update (write ∷ columns) (input ∷ values) edits h = elim (Bool-cases (editable write)) [
    | inr no' ↦
        let (none', same) = cells-update columns values edits (rw no' at h) in rw no' (none', same)
    | inl yes' ↦ elim (Bool-cases (null_input input)) [
      | inl null' ↦
          let refused : err update_to_null ≡ ok edits = rw (yes', null') at h in
          absurd (err-ne-ok refused)
      | inr value ↦
          let pushed : and_then (cell_edit serde write input)
                (λ e. and_then (cells serde columns values false) λ es. ok (e ∷ es))
              ≡ ok edits =
            rw (yes', value) at h in
          let (e, made, pushed') = and_then-eq-ok (cell_edit serde write input) _ pushed in
          let (es, rest, pushed'') = and_then-eq-ok (cells serde columns values false) _ pushed' in
          let (none', same) = cells-update columns values es rest in
          rw (yes', value) (none', rw (made, same) pushed'')
    ]
  ]

  cells-insert :
      (columns : List WriteColumn) (values : List (InputValue F)) (edits : List (CellEdit F))
      → any_null columns values ≡ false
      → cells serde columns values false ≡ cells serde columns values true
  unfolding cells
  cells-insert [] values edits n = refl
  cells-insert (write ∷ columns) [] edits n = refl
  cells-insert (write ∷ columns) (input ∷ values) edits n = elim (Bool-cases (editable write)) [
    | inr no' ↦ rw no' (cells-insert columns values edits (ground arith))
    | inl yes' ↦ elim (Bool-cases (null_input input)) [
      | inl null' ↦ absurd (true-ne-false (rw (yes', null') at n))
      | inr value ↦ rw (yes', value, cells-insert columns values edits (ground arith))
    ]
  ]

  -- An update writes a row exactly when no editable column is NULL and an insertion would write the
  -- same row.
  pub write_cells-update_iff :
      (columns : List WriteColumn) (values : List (InputValue F)) (row : RowEdit F)
      → (write_cells serde columns values false ≡ ok row)
        ↔ ((any_null columns values ≡ false) × (write_cells serde columns values true ≡ ok row))
  unfolding write_cells
  write_cells-update_iff columns values row = (
    λ h.
        let (edits, made, whole) = and_then-eq-ok (cells serde columns values false) _ h in
        let (none', same) = cells-update columns values edits made in (none', rw same whole),
    λ (none', h). rw (cells-insert columns values row.cells none') h,
  )
