-- ===== src/Exports/Session.antt =====
-- A client's loop over the exported functions of a scan, from the first batch to the last.
pub mod Heaps
pub mod Whole
pub mod Opened
use duckdb_superhuman_docs.Base.{
  map-append, ℕ, zero, suc, ◌≤◌, ◌<◌, ◌≡◌, refl, sym, ap, ◌∙◌, Text, List, [], ◌∷◌, ◌++◌, map, Bool,
  true, false, Option, none, some, Result, ok, err, Error, if◌then◌else◌, ltb, ◌==◌, Bool-cases,
  inl, inr, arith,
}
use duckdb_superhuman_docs.Json.{Serde}
use duckdb_superhuman_docs.Memory.{
  Heap, Ptr, null_ptr, block_ptr, and_maybe, put, ref_from_raw, deallocate, set,
}
use duckdb_superhuman_docs.Memory.Owned.{Grows, IsCleared, within, done}
use duckdb_superhuman_docs.Memory.Build.{deref-block, from_raw-block}
use duckdb_superhuman_docs.Ffi.Blocks.{scan_block, scan_box}
use duckdb_superhuman_docs.Memory.Strings.{FfiString, empty_string}
use duckdb_superhuman_docs.Ffi.Structs.{FfiScanBatch}
use duckdb_superhuman_docs.Model.{Row}
use duckdb_superhuman_docs.Json.Handles.{ffi_scan_batch, free_handle}
use duckdb_superhuman_docs.Json.Handles.Lifetime.{
  SeenRow, row_seen, see_batch, ffi_scan_batch-Builds,
}
use duckdb_superhuman_docs.Client.Scan.{ScanHandle, ScanBatch, Scanned, next_batch}
use duckdb_superhuman_docs.Client.Scan.Drain.{drain, Drained, drain-Drained, drain-ne_some}
use duckdb_superhuman_docs.Exports.{Answer, Returns, ffi_bool, block_on_result}
use duckdb_superhuman_docs.Exports.Scan.{
  ScanBlock, next_body, advanced, handed, rust_ext_scan_next, rust_ext_scan_close,
  rust_ext_free_scan_batch,
}

abbrev pub no_batch : FfiScanBatch
no_batch = record { rows = (null_ptr, 0); finished = false }

-- A scan that is read: the rows, or `none` where a call failed.
abbrev pub ScanRead : Type 0 → Type 0 → Type 0 → Type 0
ScanRead N F W = Option (Option (List (SeenRow N)) × Heap (ScanBlock N F W) × W)

module _ {N F W : Type 0} where
  abbrev pub read_rows : List (SeenRow N) → Heap (ScanBlock N F W) → W → ScanRead N F W
  read_rows rows h w = some (some rows, h, w)

  unfoldable pub in_front : List (SeenRow N) → ScanRead N F W → ScanRead N F W
  in_front rows none = none
  in_front rows (some (none, h, w)) = some (none, h, w)
  in_front rows (some (some later, h, w)) = some (some (rows ++ later), h, w)

  -- what is done with a batch: its rows are read, it is freed, and the scan is closed after the last
  unfoldable pub used :
      Ptr
      → FfiScanBatch
      → Heap (ScanBlock N F W)
      → W
      → (Heap (ScanBlock N F W) → W → ScanRead N F W)
      → ScanRead N F W
  used scan batch h w next = and_maybe (see_batch batch h) λ rows.
      and_maybe (rust_ext_free_scan_batch batch h) λ freed.
        if batch.finished
        then (and_maybe (rust_ext_scan_close scan freed.1) λ closed. some (some rows, closed.1, w))
        else in_front rows (next freed.1 w)

  unfoldable pub answered :
      Ptr
      → Returns (ScanBlock N F W) W (Option FfiScanBatch)
      → (Heap (ScanBlock N F W) → W → ScanRead N F W)
      → ScanRead N F W
  answered scan none next = none
  answered scan (some (answer, h, w)) next =
      if answer.success
      then (and_maybe answer.out λ batch. used scan batch h w next)
      else some (none, h, w)

  module _ (serde : Serde N F) (display : Error → Text) where
    -- Calls of `rust_ext_scan_next` up to the last batch, each batch freed once its
    -- rows are read, and then `rust_ext_scan_close`.
    unfoldable pub read_scan : ℕ → ℕ → Ptr → Heap (ScanBlock N F W) → W → ScanRead N F W
    unfolding answered used in_front
    read_scan zero fuel scan h w = none
    read_scan (suc calls) fuel scan h w =
        answered scan
          (rust_ext_scan_next display serde (ok tt) fuel scan (some no_batch) (some empty_string) h
            w)
          (read_scan calls fuel scan)
