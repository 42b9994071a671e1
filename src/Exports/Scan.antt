-- ===== src/Exports/Scan.antt =====
-- src/exports/scan.rs, but for the values of cells: scans that DuckDB opens, reads and closes.
use duckdb_superhuman_docs.Base.{ℕ, Text, Option, none, some, Result, ok, err, Error, codes}
use duckdb_superhuman_docs.Json.{Serde}
use duckdb_superhuman_docs.Sdk.Calls.{Network}
use duckdb_superhuman_docs.Memory.{Heap, Mem, Reading, Ptr, and_maybe, into_raw, put, ref_from_raw}
use duckdb_superhuman_docs.Memory.Strings.{FfiString, as_str}
use duckdb_superhuman_docs.Ffi.Structs.{FfiScanBatch}
use duckdb_superhuman_docs.Ffi.Blocks.{Block, contents, scan_box}
use duckdb_superhuman_docs.Json.Handles.{ffi_scan_batch, free_scan_batch, free_handle}
use duckdb_superhuman_docs.Client.Scan.{
  ScanHandle, ScanRequest, ScanBatch, Scanned, scan_new, next_batch,
}
use duckdb_superhuman_docs.Mutation.Rows.{Waits}
use duckdb_superhuman_docs.Exports.{
  Act, Body, Returns, onward, reading, building, block_on_result, writes, ffi_bool, client_config,
  table_from_handle,
}

-- `RustExtScanRequest`
pub record FfiScanRequest : Type 0 where
  pub filter : FfiString
  pub order : FfiString
  pub limit : ℕ

abbrev pub ScanBlock : Type 0 → Type 0 → Type 0 → Type 0
ScanBlock N F W = Block N (ScanHandle W F)

module _ {N F W : Type 0} where
  -- the texts of a request, which are read whether or not the client can be made
  unfoldable pub scan_request : FfiScanRequest → Reading (ScanBlock N F W) ScanRequest
  unfolding as_str
  scan_request request h = and_maybe (as_str contents request.filter h) λ filter.
      and_maybe (as_str contents request.order h)
        λ order. some (record { filter = filter; order = order; limit = request.limit })

  -- `ScanHandle::new(client_config(config)?, table_from_handle(table)?, request)?`, in a box
  unfoldable pub opened : Network W F → Ptr → Ptr → FfiScanRequest → Act (ScanBlock N F W) W Ptr
  unfolding client_config table_from_handle scan_request into_raw scan_new
  opened network config table request h w =
      onward (reading (client_config config) h w) λ config' h w.
        onward (reading (table_from_handle table) h w) λ table' h w.
          and_maybe (scan_request request h) λ request'.
            onward (some (scan_new network config' table' request', h, w))
              λ handle h w. building (into_raw scan_box handle) h w

  -- the handle as a part of the world, for a future that changes it
  abbrev with_handle : Option (Scanned (ScanBatch N) W F) → Waits (ScanHandle W F × W) (ScanBatch N)
  with_handle none = none
  with_handle (some (r, handle, w)) = some (r, (handle, w))

  -- what a call of `next_batch` leaves: the handle in its box, and its batch as handles
  unfoldable pub handed :
      Ptr
      → Option (Result (ScanBatch N) × Heap (ScanBlock N F W) × (ScanHandle W F × W))
      → Option (Result FfiScanBatch × Heap (ScanBlock N F W) × W)
  unfolding put ffi_scan_batch
  handed scan none = none
  handed scan (some (err e, h, (handle, w))) = some (err e, put scan_box scan handle h, w)
  handed scan (some (ok batch, h, (handle, w))) =
      building (ffi_scan_batch batch.rows batch.finished) (put scan_box scan handle h) w

  unfoldable pub rust_ext_scan_close : Ptr → Mem (ScanBlock N F W) (Unit {0})
  unfolding free_handle
  rust_ext_scan_close scan = free_handle scan_box scan

  unfoldable pub rust_ext_free_scan_batch : FfiScanBatch → Mem (ScanBlock N F W) (Unit {0})
  unfolding free_scan_batch
  rust_ext_free_scan_batch batch = free_scan_batch batch

  module _ (serde : Serde N F) (runtime : Result (Unit {0})) where
    -- `handle.next_batch()` on the handle in the box
    unfoldable pub advanced : ℕ → Ptr → ScanHandle W F → Act (ScanBlock N F W) W FfiScanBatch
    unfolding block_on_result handed
    advanced fuel scan handle h w = handed scan (
        block_on_result {W = ScanHandle W F × W} {A = ScanBatch N} runtime
          (λ s. with_handle (next_batch serde fuel s.0 s.1)) h (handle, w))

    unfoldable pub next_body :
        ℕ → Ptr → Option FfiScanBatch → Body (ScanBlock N F W) W (Option FfiScanBatch)
    unfolding ref_from_raw writes advanced
    next_body fuel scan out h w = writes out (
        onward (reading (ref_from_raw scan_box scan "scan handle") h w)
          λ handle h w. advanced fuel scan handle h w)

  module _ (display : Error → Text) where
    unfoldable pub rust_ext_scan_open :
        Network W F
        → Ptr
        → Ptr
        → FfiScanRequest
        → Option Ptr
        → Option FfiString
        → Heap (ScanBlock N F W)
        → W
        → Returns (ScanBlock N F W) W (Option Ptr)
    unfolding ffi_bool writes opened
    rust_ext_scan_open network config table request out error h w =
        ffi_bool display (codes "failed to open Superhuman Docs scan") error
          (λ h w. writes out (opened network config table request h w)) h w

    unfoldable pub rust_ext_scan_next :
        Serde N F
        → Result (Unit {0})
        → ℕ
        → Ptr
        → Option FfiScanBatch
        → Option FfiString
        → Heap (ScanBlock N F W)
        → W
        → Returns (ScanBlock N F W) W (Option FfiScanBatch)
    unfolding ffi_bool next_body
    rust_ext_scan_next serde runtime fuel scan out error h w =
        ffi_bool display (codes "failed to fetch next Superhuman Docs scan batch") error
          (next_body serde runtime fuel scan out) h w
