-- ===== src/Exports/Session/Opened.antt =====
-- A scan that DuckDB opens, reads to its end and closes.
use duckdb_superhuman_docs.Base.{
  ℕ, suc, ◌≤◌, ◌<◌, ◌≡◌, refl, ◌∙◌, Text, List, map, true, false, Option, none, some, ok, Error,
  if◌then◌else◌, ltb, ◌==◌, Bool-cases, inl, inr, arith,
}
use duckdb_superhuman_docs.Json.{Serde}
use duckdb_superhuman_docs.Sdk.Calls.{Network}
use duckdb_superhuman_docs.Model.{ClientConfig, Table, Row}
use duckdb_superhuman_docs.Memory.{Heap, null_ptr, block_ptr, allocate, into_raw, ref_from_raw}
use duckdb_superhuman_docs.Memory.Build.{deref-block, cell-allocate}
use duckdb_superhuman_docs.Memory.Strings.{FfiString}
use duckdb_superhuman_docs.Ffi.Blocks.{config_block, table_block, scan_block, config_box, table_box}
use duckdb_superhuman_docs.Json.Handles.Lifetime.{row_seen}
use duckdb_superhuman_docs.Client.Scan.{ScanHandle, ScanRequest, scan_new}
use duckdb_superhuman_docs.Client.Scan.Drain.{drain}
use duckdb_superhuman_docs.Exports.{returned, ffi_bool, client_config, table_from_handle}
use duckdb_superhuman_docs.Exports.Scan.{
  ScanBlock, FfiScanRequest, scan_request, opened, rust_ext_scan_open,
}
use duckdb_superhuman_docs.Exports.Session.{read_scan, read_rows}
use duckdb_superhuman_docs.Exports.Session.Heaps.{IsRestored}
use duckdb_superhuman_docs.Exports.Session.Whole.{read_scan-drain}

module _ {N F W : Type 0} where
  -- The blocks of a heap are as they were in an earlier one, and there are no others.
  abbrev pub IsUnchanged : Heap (ScanBlock N F W) → Heap (ScanBlock N F W) → Type 0
  IsUnchanged h h' =
      (h.next ≤ h'.next)
      × ((x : ℕ) → x < h'.next → h'.cell x ≡ (if ltb x h.next then h.cell x else none))

  -- A box that was opened and closed leaves no trace.
  IsRestored-IsUnchanged :
      (handle : ScanHandle W F) (h h' : Heap (ScanBlock N F W))
      → IsRestored h.next (allocate (scan_block handle) h).1 h'
      → IsUnchanged h h'
  unfolding allocate
  IsRestored-IsUnchanged handle h h' (le, kept) = (
    omega (arith, le),
    λ x lt. elim (Bool-cases (ltb x h.next)) [
      | inl before ↦
          let (other, later) = older x before in kept x lt ∙ rw (other, later, before) refl
      | inr after ↦
          kept x lt
          ∙ rw after (elim (Bool-cases (x == h.next)) [
            | inl here ↦ rw here refl
            | inr other ↦ let later = newer x after other in rw (other, later) refl
          ])
    ],
  )
    where
      older : (x : ℕ) → ltb x h.next ≡ true → ((x == h.next) ≡ false) × (ltb x (suc h.next) ≡ true)
      older x before = ground arith

      newer : (x : ℕ) → ltb x h.next ≡ false → (x == h.next) ≡ false → ltb x (suc h.next) ≡ false
      newer x after other = ground arith

  module _ (display : Error → Text) (network : Network W F) (c t : ℕ) (config : ClientConfig)
      (table : Table) (request : FfiScanRequest) (request' : ScanRequest) (handle : ScanHandle W F)
      (error : Option FfiString) (h : Heap (ScanBlock N F W)) (w : W)
      (configured : h.cell c ≡ some (config_block config))
      (listed : h.cell t ≡ some (table_block table))
      (asked : scan_request request h ≡ some request')
      (made : scan_new network config table request' ≡ ok handle) where
    -- The handle is put into a new box.
    scan_open-ok :
        rust_ext_scan_open display network
          (block_ptr c)
          (block_ptr t)
          request
          (some null_ptr)
          error
          h
          w
        ≡ returned (some (block_ptr h.next)) error (allocate (scan_block handle) h).1 w
    unfolding rust_ext_scan_open ffi_bool opened client_config table_from_handle ref_from_raw
        into_raw
    scan_open-ok =
        rw
          (
            deref-block config_box c config h configured,
            deref-block table_box t table h listed,
            asked,
            made,
          )
          refl

    -- A scan through the exported functions, from `rust_ext_scan_open` to `rust_ext_scan_close`, with
    -- the runtime built and with output pointers that are not null: where the configuration and the
    -- table are in boxes, the request can be read, the handle can be made, and reading it to its end
    -- gives rows, the scan opens, the client reads these rows through the handles of the batches, each
    -- with its id, in order; and in the end every block of before is as it was, and every block that
    -- was allocated in between, the handle's box among them, is freed.
    pub open_scan-drain :
        (serde : Serde N F) (calls fuel : ℕ) (handle' : ScanHandle W F) (w' : W)
        (rows : List (Row N))
        → drain serde calls fuel handle w ≡ some (ok rows, handle', w')
        → (scan : Heap (ScanBlock N F W)) × (h' : Heap (ScanBlock N F W)) × (rust_ext_scan_open
              display network
              (block_ptr c)
              (block_ptr t)
              request
              (some null_ptr)
              error
              h
              w
            ≡ returned (some (block_ptr h.next)) error scan w)
          × (read_scan serde display calls fuel (block_ptr h.next) scan w
              ≡ read_rows (map row_seen rows) h' w')
          × IsUnchanged h h'
    unfolding allocate
    open_scan-drain serde calls fuel handle' w' rows read =
        let content = scan_block handle in
        let scan = (allocate content h).1 in
        let (h', e, restored) =
          read_scan-drain serde display calls fuel h.next scan handle handle' w w' rows
            (omega arith) (cell-allocate content h) read in
        (scan, h', scan_open-ok, e, IsRestored-IsUnchanged handle h h' restored)
