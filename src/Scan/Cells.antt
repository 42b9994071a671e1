-- ===== src/Scan/Cells.antt =====
-- Which part of a row a column shows, `scan_value` of src/scan.rs.
use mathlib.Core.Path.{subst}
use duckdb_superhuman_docs.Base.{
  ◌≡◌, ◌∙◌, refl, sym, ap, Text, List, [], ◌∷◌, ◌++◌, Bool, true, false, Option, none, some, All,
  if◌then◌else◌, if-true, if-false, is_empty, not, Bool-cases, true-ne-false, inl, inr, ◌&&◌,
}
use duckdb_superhuman_docs.Base.Ascii.{eq_ignore_ascii_case}
use duckdb_superhuman_docs.Json.{Value, Serde}
use duckdb_superhuman_docs.Json.Access.{as_array, is_null}
use duckdb_superhuman_docs.Model.{Column, Row, Cell}
use duckdb_superhuman_docs.Model.Capability.{has_capability, column_system}
use duckdb_superhuman_docs.Scan.{
  ScanValue, null_value, text_value, array_value, scan_value, scan_cells, cell_text, elements,
  normalized_value, owned, system_text,
}

module _ {N F : Type 0} (serde : Serde N F) where
  scan_cells-skip :
      (column : Column) (before after : List (Cell N))
      → All (λ c. eq_ignore_ascii_case c.column_id column.id ≡ false) before
      → scan_cells serde column (before ++ after) ≡ scan_cells serde column after
  unfolding scan_cells
  scan_cells-skip column [] after h = refl
  scan_cells-skip column (c ∷ before) after (p, h) =
      if-false _ _ p ∙ scan_cells-skip column before after h

  -- A column that is not the system's shows the first of the row's cells that carries its id,
  -- without regard to ASCII case: neither the cells before it, nor those behind it, nor the row's
  -- times matter.
  pub scan_value-first :
      (column : Column) (row : Row N) (before after : List (Cell N)) (cell : Cell N)
      → has_capability column.capabilities column_system ≡ false
      → row.cells ≡ before ++ cell ∷ after
      → All (λ c. eq_ignore_ascii_case c.column_id column.id ≡ false) before
      → eq_ignore_ascii_case cell.column_id column.id ≡ true
      → scan_value serde column row ≡ cell_text serde column cell.value
  unfolding scan_value scan_cells
  scan_value-first column row before after cell plain split skipped found =
      if-false _ _ plain
      ∙ ap (scan_cells serde column) split
      ∙ scan_cells-skip column before (cell ∷ after) skipped
      ∙ if-true _ _ found

  -- A value of a column: arrays only for columns of arrays, texts of cells, which are owned, only for
  -- the others, and texts that are not owned, the row's times, only for the system's columns.
  pub HasKind : Column → ScanValue → Type 0
  HasKind column null_value = Unit
  HasKind column (text_value value_owned text) =
      (value_owned ≡ not (has_capability column.capabilities column_system))
      × ((value_owned && column.is_array) ≡ false)
  HasKind column (array_value values) =
      (has_capability column.capabilities column_system ≡ false) × (column.is_array ≡ true)

  -- Only a system column borrows.
  pub HasKind-system :
      (column : Column) (text : Text)
      → HasKind column (text_value false text)
      → has_capability column.capabilities column_system ≡ true
  unfolding HasKind
  HasKind-system column text (e, _) =
      elim (Bool-cases (has_capability column.capabilities column_system)) [
        | inl system ↦ system
        | inr plain ↦ absurd (true-ne-false (sym (e ∙ rw plain refl)))
      ]

  null_value-HasKind : (column : Column) → HasKind column null_value
  unfolding HasKind
  null_value-HasKind column = tt

  -- Both branches of a test have a kind.
  choose :
      (column : Column) (b : Bool) (x y : ScanValue)
      → HasKind column x
      → HasKind column y
      → HasKind column (if b then x else y)
  choose column true x y p q = p
  choose column false x y p q = q

  owned-HasKind :
      (column : Column) (o : Option Text)
      → has_capability column.capabilities column_system ≡ false
      → column.is_array ≡ false
      → HasKind column (owned serde o)
  unfolding owned HasKind
  owned-HasKind column none plain single = tt
  owned-HasKind column (some text) plain single = (rw plain refl, single)

  elements-HasKind :
      (column : Column) (o : Option (List (Value N)))
      → has_capability column.capabilities column_system ≡ false
      → column.is_array ≡ true
      → HasKind column (elements serde column.format_type o)
  unfolding elements HasKind
  elements-HasKind column none plain many = tt
  elements-HasKind column (some values) plain many = (plain, many)

  cell_text-HasKind :
      (column : Column) (value : Value N)
      → has_capability column.capabilities column_system ≡ false
      → HasKind column (cell_text serde column value)
  unfolding cell_text
  cell_text-HasKind column value plain =
      choose column (is_null value) null_value _ (null_value-HasKind column)
        (elim (Bool-cases column.is_array) [
          | inl many ↦
              subst (HasKind column) (sym (if-true _ _ many))
                (elements-HasKind column (as_array value) plain many)
          | inr single ↦
              subst (HasKind column) (sym (if-false _ _ single)) (
                owned-HasKind column (normalized_value serde column.format_type value) plain single)
        ])

  borrowed :
      (column : Column) (text : Text)
      → has_capability column.capabilities column_system ≡ true
      → HasKind column (text_value false text)
  unfolding HasKind
  borrowed column text system = (rw system refl, refl)

  scan_cells-HasKind :
      (column : Column) (cells : List (Cell N))
      → has_capability column.capabilities column_system ≡ false
      → HasKind column (scan_cells serde column cells)
  unfolding scan_cells
  scan_cells-HasKind column [] plain = null_value-HasKind column
  scan_cells-HasKind column (cell ∷ cells) plain =
      choose column (eq_ignore_ascii_case cell.column_id column.id) _ _
        (cell_text-HasKind column cell.value plain) (scan_cells-HasKind column cells plain)

  -- Whatever a column and a row are: an array is shown only for a column of arrays that is not the
  -- system's; a text is marked as owned, to be freed by DuckDB, exactly if the column is not the
  -- system's, where it was allocated and not borrowed from the row; and an owned text is never shown
  -- for a column of arrays.
  pub scan_value-HasKind :
      (column : Column) (row : Row N) → HasKind column (scan_value serde column row)
  unfolding scan_value
  scan_value-HasKind column row =
      elim (Bool-cases (has_capability column.capabilities column_system)) [
        | inl system ↦ subst (HasKind column) (sym (if-true _ _ system)) (
            choose column (is_empty (system_text column.id row)) _ _ (null_value-HasKind column)
              (borrowed column (system_text column.id row) system))
        | inr plain ↦
            subst (HasKind column) (sym (if-false _ _ plain))
              (scan_cells-HasKind column row.cells plain)
      ]
