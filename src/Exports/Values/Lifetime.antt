-- ===== src/Exports/Values/Lifetime.antt =====
-- What DuckDB reads of the value of a cell, until it frees it.
use duckdb_superhuman_docs.Base.{
  map_same, ℕ, ◌≡◌, refl, sym, ap, ◌∙◌, Text, List, [], Bool, true, false, Option, none, some,
  codes, if◌then◌else◌, Bool-cases, inl, inr,
}
use duckdb_superhuman_docs.Base.Ascii.{eq_ignore_ascii_case}
use duckdb_superhuman_docs.Json.{Serde}
use duckdb_superhuman_docs.Model.{Column, Row}
use duckdb_superhuman_docs.Scan.{ScanValue, null_value, text_value, array_value, scan_value}
use duckdb_superhuman_docs.Scan.Borrowed.{scan_value-row_time}
use duckdb_superhuman_docs.Memory.{
  Heap, Reading, Ptr, block_ptr, part_ptr, Part, and_maybe, read_vec, free_vec,
}
use duckdb_superhuman_docs.Memory.Owned.{within, Agree, IsReleased}
use duckdb_superhuman_docs.Memory.Build.{IsBuilt, Builds, IsBuilt-none, within-none}
use duckdb_superhuman_docs.Memory.Vectors.{build_vec-Builds}
use duckdb_superhuman_docs.Memory.Strings.{as_str, as_str-borrow_string, alloc_string-Builds}
use duckdb_superhuman_docs.Ffi.Structs.{FfiArrayValue, FfiScanValue}
use duckdb_superhuman_docs.Ffi.Blocks.{Block, row_block, array_buffer, contents}
use duckdb_superhuman_docs.Exports.Values.{
  system_part, ffi_item, ffi_value, free_item, rust_ext_free_scan_value, ffi_scan_value,
}

-- What there is to see of a value.
pub record SeenValue : Type 0 where
  pub is_null : Bool
  pub text : Text
  pub items : List (Option Text)

abbrev pub value_seen : ScanValue → SeenValue
value_seen null_value = record { is_null = true; text = []; items = [] }
value_seen (text_value owned text) = record { is_null = false; text = text; items = [] }
value_seen (array_value items) = record { is_null = false; text = []; items = items }

module _ {N S : Type 0} where
  abbrev pub see_item : FfiArrayValue → Reading (Block N S) (Option Text)
  see_item item h =
      if item.is_null
      then some none
      else and_maybe (as_str contents item.value h) λ text. some (some text)

  abbrev pub see_value : FfiScanValue → Reading (Block N S) SeenValue
  see_value value h = and_maybe (as_str contents value.value h) λ text.
      and_maybe (read_vec array_buffer see_item value.array_values h)
        λ items. some (record { is_null = value.is_null; text = text; items = items })

  ffi_item-Builds : Builds see_item free_item (ffi_item {N = N} {S = S}) (λ o. o)
  unfolding ffi_item free_item
  ffi_item-Builds none h = IsBuilt-none _ _ none h (λ g. refl) (λ g. refl)
  ffi_item-Builds (some text) h =
      let (grows, held) = alloc_string-Builds contents text h in
      (grows, λ g agree. let (e, released) = held g agree in (rw e refl, released))

  null-IsBuilt :
      (place : Ptr) (h : Heap (Block N S))
      → IsBuilt
          (see_value (ffi_value place null_value h).0)
          (rust_ext_free_scan_value (ffi_value place null_value h).0)
          (value_seen null_value)
          h
          (ffi_value place null_value h).1
  unfolding ffi_value rust_ext_free_scan_value read_vec free_vec as_str
  null-IsBuilt place h = IsBuilt-none _ _ (value_seen null_value) h (λ g. refl) (λ g. refl)

  -- A value that owns what it needs.
  owned-IsBuilt :
      (place : Ptr) (text : Text) (h : Heap (Block N S))
      → IsBuilt
          (see_value (ffi_value place (text_value true text) h).0)
          (rust_ext_free_scan_value (ffi_value place (text_value true text) h).0)
          (value_seen (text_value true text))
          h
          (ffi_value place (text_value true text) h).1
  unfolding ffi_value rust_ext_free_scan_value read_vec free_vec
  owned-IsBuilt place text h =
      let (grows, held) = alloc_string-Builds contents text h in
      (grows, λ g agree. let (e, (g', s, c)) = held g agree in (rw e refl, (g', rw s refl, c)))

  array-IsBuilt :
      (place : Ptr) (items : List (Option Text)) (h : Heap (Block N S))
      → IsBuilt
          (see_value (ffi_value place (array_value items) h).0)
          (rust_ext_free_scan_value (ffi_value place (array_value items) h).0)
          (value_seen (array_value items))
          h
          (ffi_value place (array_value items) h).1
  unfolding ffi_value rust_ext_free_scan_value as_str
  array-IsBuilt place items h =
      let (grows, held) =
        build_vec-Builds array_buffer see_item free_item ffi_item (λ o. o) ffi_item-Builds items
          h in
      (
        grows,
        λ g agree.
            let (e, (g', s, c)) = held g agree in (rw (e, map_same items) refl, (g', rw s refl, c)),
      )

  -- A text that is borrowed from a box, and not freed with the value.
  borrowed-IsBuilt :
      (a : ℕ) (part : Part) (row : Row N) (text : Text) (h g : Heap (Block N S))
      → g.cell a ≡ some (row_block row)
      → (contents {N = N} {S = S}).part part (row_block row) ≡ some text
      → (see_value (ffi_value (part_ptr a part) (text_value false text) h).0 g
          ≡ some (value_seen (text_value false text)))
        × IsReleased
            (within h.next h.next)
            (rust_ext_free_scan_value (ffi_value (part_ptr a part) (text_value false text) h).0)
            g
  unfolding ffi_value rust_ext_free_scan_value read_vec free_vec
  borrowed-IsBuilt a part row text h g boxed holds =
      let e = as_str-borrow_string contents a part (row_block row) g text boxed holds in
      (rw e refl, (g, refl, (refl, λ z. rw (within-none h.next z) refl)))

  module _ {F : Type 0} (serde : Serde N F) where
    -- The value of a cell that is handed to DuckDB, with the row in a box: as long as the row and
    -- the blocks of the value are as they were, DuckDB reads the value that `scan_value` gives, be
    -- it null, a text that is borrowed or owned, or the elements of an array; and freeing it then
    -- never goes wrong and frees exactly the blocks that building it added.
    pub ffi_scan_value-lem :
        (column : Column) (row : Row N) (a : ℕ) (h g : Heap (Block N S))
        → g.cell a ≡ some (row_block row)
        → Agree
            (within h.next (ffi_scan_value serde column (block_ptr a) row h).1.next)
            (ffi_scan_value serde column (block_ptr a) row h).1
            g
        → (see_value (ffi_scan_value serde column (block_ptr a) row h).0 g
            ≡ some (value_seen (scan_value serde column row)))
          × IsReleased
              (within h.next (ffi_scan_value serde column (block_ptr a) row h).1.next)
              (rust_ext_free_scan_value (ffi_scan_value serde column (block_ptr a) row h).0)
              g
    unfolding ffi_scan_value
    ffi_scan_value-lem column row a h g boxed agree = of (scan_value serde column row) refl agree
      where
        -- The text of a system column is the string of the row that it is borrowed from.
        borrowed-part :
            (text : Text)
            → scan_value serde column row ≡ text_value false text
            → (contents {N = N} {S = S}).part (system_part column.id) (row_block row) ≡ some text
        borrowed-part text e =
            let at = scan_value-row_time serde column row text e in
            elim (Bool-cases (eq_ignore_ascii_case column.id (codes "createdAt"))) [
              | inl created ↦ rw created (ap some (sym (at ∙ rw created refl)))
              | inr updated ↦ rw updated (ap some (sym (at ∙ rw updated refl)))
            ]

        of :
            (v : ScanValue)
            → scan_value serde column row ≡ v
            → Agree
                (within h.next (ffi_value (part_ptr a (system_part column.id)) v h).1.next)
                (ffi_value (part_ptr a (system_part column.id)) v h).1
                g
            → (see_value (ffi_value (part_ptr a (system_part column.id)) v h).0 g
                ≡ some (value_seen v))
              × IsReleased
                  (within h.next (ffi_value (part_ptr a (system_part column.id)) v h).1.next)
                  (rust_ext_free_scan_value (ffi_value (part_ptr a (system_part column.id)) v h).0)
                  g
        of null_value e agree = (null-IsBuilt (part_ptr a (system_part column.id)) h).1 g agree
        of (text_value true text) e agree =
            (owned-IsBuilt (part_ptr a (system_part column.id)) text h).1 g agree
        of (text_value false text) e agree =
            borrowed-IsBuilt a (system_part column.id) row text h g boxed (borrowed-part text e)
        of (array_value items) e agree =
            (array-IsBuilt (part_ptr a (system_part column.id)) items h).1 g agree
