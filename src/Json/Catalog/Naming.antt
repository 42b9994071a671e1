-- ===== src/Json/Catalog/Naming.antt =====
-- `prepare_columns` of src/json/catalog.rs: each column gets a name that no earlier column has, as
-- DuckDB compares names, without regard to ASCII case. `suffix` is an `i32` in the source, which
-- fewer than 2^31 columns cannot overflow. The search for a free name takes fuel.
pub mod Unique
mod Pigeonhole
use duckdb_superhuman_docs.Base.{
  ℕ, zero, suc, ◌+◌, Text, List, [], ◌∷◌, ◌++◌, Bool, Option, none, some, any, length, codes,
  is_empty, if◌then◌else◌,
}
use duckdb_superhuman_docs.Base.Ascii.{eq_ignore_ascii_case}
use duckdb_superhuman_docs.Base.Decimal.{to_string}
use duckdb_superhuman_docs.Model.{Column}

-- `columns[..idx].iter().any(|column| column.name.eq_ignore_ascii_case(&candidate))`
pub taken : List Column → Text → Bool
unfolding eq_ignore_ascii_case
taken earlier candidate = any (λ column. eq_ignore_ascii_case column.name candidate) earlier

-- `format!("{base}_{suffix}")`
numbered : Text → ℕ → Text
numbered base suffix = base ++ (b'_' ∷ to_string suffix)

-- the `while` loop
search : ℕ → List Column → Text → ℕ → Text → Option Text
search zero earlier base suffix candidate = none
search (suc fuel) earlier base suffix candidate =
    let next = search fuel earlier base (suc suffix) (numbered base (suc suffix)) in
    if taken earlier candidate then next else some candidate

base_name : Text → Text
base_name original = if is_empty original then codes "column" else original

-- the new name of the column behind the columns `earlier`
free_name : List Column → Text → Option Text
unfolding search base_name
free_name earlier original =
    search (suc (length earlier)) earlier (base_name original) 1 (base_name original)

-- the `for` loop, from the column behind `earlier` on
prepare_from : List Column → List Column → Option (List Column)
prepare_from earlier [] = some earlier
prepare_from earlier (column ∷ columns) = elim (free_name earlier column.name) [
  | none ↦ none
  | some name ↦ prepare_from (earlier ++ record column { name = name } ∷ []) columns
]

unfoldable pub prepare_columns : List Column → Option (List Column)
unfolding prepare_from free_name taken numbered
prepare_columns columns = prepare_from [] columns
