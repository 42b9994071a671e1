-- ===== src/Model/Capability.antt =====
-- The capability bits of src/ffi.rs, 32-bit masks, and the test of one bit.
use Prim.Native.Nat.{bit_and, bit_or}
use duckdb_superhuman_docs.Base.{ℕ, Bool, ◌==◌, not}

abbrev pub column_generated : ℕ
column_generated = 1

abbrev pub column_system : ℕ
column_system = 2

abbrev pub column_editable : ℕ
column_editable = 4

abbrev pub column_filter_equality : ℕ
column_filter_equality = 8

abbrev pub column_sort_asc : ℕ
column_sort_asc = 16

abbrev pub table_view : ℕ
table_view = 1

abbrev pub table_insert : ℕ
table_insert = 2

abbrev pub table_update : ℕ
table_update = 4

abbrev pub table_delete : ℕ
table_delete = 8

abbrev pub table_row_id : ℕ
table_row_id = 16

-- `a | b`
abbrev pub union : ℕ → ℕ → ℕ
union a b = bit_or a b

-- `capabilities & flag != 0`
unfoldable pub has_capability : ℕ → ℕ → Bool
has_capability capabilities flag = not (bit_and capabilities flag == 0)
