-- ===== src/Scan/Borrowed.antt =====
-- The texts that `scan_value` of src/scan.rs borrows from a row.
use mathlib.Core.Path.{subst}
use duckdb_superhuman_docs.Base.{
  ◌≡◌, sym, ◌∙◌, Text, [], Bool, true, false, codes, is_empty, if◌then◌else◌, if-true, if-eq,
  true-ne-false, inl, inr,
}
use duckdb_superhuman_docs.Base.Ascii.{eq_ignore_ascii_case}
use duckdb_superhuman_docs.Json.{Serde}
use duckdb_superhuman_docs.Model.{Column, Row}
use duckdb_superhuman_docs.Scan.{text_value, scan_value, system_text}
use duckdb_superhuman_docs.Scan.Cells.{HasKind, HasKind-system, scan_value-HasKind}

module _ {N F : Type 0} (serde : Serde N F) where
  -- A time that is not empty is one of the two.
  times :
      (a b : Bool) (x y text : Text)
      → is_empty (if a then x else if b then y else []) ≡ false
      → (if a then x else if b then y else []) ≡ text
      → text ≡ (if a then x else y)
  times true b x y text full e = sym e
  times false true x y text full e = sym e
  times false false x y text full e = absurd (true-ne-false full)

  -- A text that is borrowed is a time of the row.
  pub scan_value-row_time :
      (column : Column) (row : Row N) (text : Text)
      → scan_value serde column row ≡ text_value false text
      → text ≡ (
          if eq_ignore_ascii_case column.id (codes "createdAt")
          then row.created_at
          else row.updated_at)
  unfolding scan_value system_text
  scan_value-row_time column row text e =
      let system =
        HasKind-system serde column text
          (subst (HasKind serde column) e (scan_value-HasKind serde column row)) in
      elim (if-eq (is_empty (system_text column.id row)) _ _ (sym (if-true _ _ system) ∙ e)) [
        | inl (_, e') ↦ absurd cc
        | inr (full, e') ↦
            times (eq_ignore_ascii_case column.id (codes "createdAt"))
              (eq_ignore_ascii_case column.id (codes "updatedAt")) row.created_at row.updated_at
              text full cc
      ]
