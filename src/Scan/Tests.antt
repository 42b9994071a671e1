-- ===== src/Scan/Tests.antt =====
-- The values of a small row, and the theorems about values at it.
use duckdb_superhuman_docs.Base.{◌≡◌, ◌++◌, refl, [], ◌∷◌, codes, text_eq, false, true, ℕ, one_of}
use duckdb_superhuman_docs.Base.Ascii.{eq_ignore_ascii_case, to_ascii_lowercase}
use duckdb_superhuman_docs.Json.{Serde, field, end, null}
use duckdb_superhuman_docs.Json.Access.{get_field}
use duckdb_superhuman_docs.Model.{Column, Row}
use duckdb_superhuman_docs.Model.Capability.{has_capability, column_system}
use duckdb_superhuman_docs.Samples.{sample_serde, str}
use duckdb_superhuman_docs.Scan.{
  text_value, scan_value, cell_text, unfence_rich_text, fence, newline, scan_cells,
  normalized_value, owned, scalar_text, projected, insert_field, text_lt,
}
use duckdb_superhuman_docs.Scan.Cells.{HasKind, scan_value-first, scan_value-HasKind}
use duckdb_superhuman_docs.Scan.Fences.{unfence_rich_text-fence}

abbrev serde : Serde ℕ ℕ
serde = sample_serde []

abbrev column : Column
column = record {
  id = codes "c2";
  name = codes "C";
  format_type = codes "text";
  duckdb_type = codes "VARCHAR";
  duckdb_type_alias = [];
  is_array = false;
  capabilities = 12;
}

abbrev row : Row ℕ
row = record {
  id = codes "r";
  created_at = [];
  updated_at = [];
  deleted = false;
  cells =
      record { column_id = codes "c1"; value = str "x" }
      ∷ record { column_id = codes "C2"; value = str "```y```" }
      ∷ [];
}

shown : scan_value serde column row ≡ text_value true (codes "y")
unfolding scan_value scan_cells cell_text normalized_value owned scalar_text unfence_rich_text
    has_capability eq_ignore_ascii_case to_ascii_lowercase one_of
shown = refl

plain : has_capability 12 column_system ≡ false
unfolding has_capability
plain = refl

ids :
    (eq_ignore_ascii_case (codes "c1") (codes "c2") ≡ false)
    × (eq_ignore_ascii_case (codes "C2") (codes "c2") ≡ true)
unfolding eq_ignore_ascii_case
ids = (refl, refl)

scan_value-first_example : scan_value serde column row ≡ cell_text serde column (str "```y```")
scan_value-first_example =
    scan_value-first serde column row (record { column_id = codes "c1"; value = str "x" } ∷ []) []
      (record { column_id = codes "C2"; value = str "```y```" }) plain refl (ids.0, tt) ids.1

scan_value-HasKind_example : HasKind serde column (scan_value serde column row)
scan_value-HasKind_example = scan_value-HasKind serde column row

unfence_rich_text-fence_example :
    unfence_rich_text (fence ++ newline ++ codes "```" ++ newline ++ fence) ≡ codes "```"
unfence_rich_text-fence_example = unfence_rich_text-fence (codes "```")

-- The keys of a projected object are in their order, whatever that of the names.
projected_test :
    projected serde ("currency" ∷ "amount" ∷ []) end
    ≡ field (codes "amount") null (field (codes "currency") null end)
unfolding projected insert_field text_lt get_field text_eq
projected_test = refl
