-- ===== src/Exports/Session/Whole.antt =====
-- A scan that DuckDB reads through the exported functions to its end.
use duckdb_superhuman_docs.Base.{
  map-append, ℕ, zero, suc, ◌<◌, ◌≡◌, refl, sym, ap, ◌∙◌, Text, List, ◌++◌, map, true, false,
  Option, some, ok, Error, ltb, ◌==◌, Bool-cases, inl, inr, arith,
}
use duckdb_superhuman_docs.Json.{Serde}
use duckdb_superhuman_docs.Memory.{Heap, block_ptr, put, ref_from_raw, deallocate}
use duckdb_superhuman_docs.Memory.Owned.{done}
use duckdb_superhuman_docs.Memory.Build.{deref-block}
use duckdb_superhuman_docs.Ffi.Blocks.{scan_block, scan_box}
use duckdb_superhuman_docs.Memory.Strings.{empty_string}
use duckdb_superhuman_docs.Ffi.Structs.{FfiScanBatch}
use duckdb_superhuman_docs.Model.{Row}
use duckdb_superhuman_docs.Json.Handles.{ffi_scan_batch}
use duckdb_superhuman_docs.Json.Handles.Lifetime.{
  SeenRow, row_seen, see_batch, ffi_scan_batch-Builds,
}
use duckdb_superhuman_docs.Client.Scan.{ScanHandle, ScanBatch, next_batch}
use duckdb_superhuman_docs.Client.Scan.Drain.{drain, drain-Drained, drain-ne_some}
use duckdb_superhuman_docs.Exports.{Returns, ffi_bool, block_on_result}
use duckdb_superhuman_docs.Exports.Scan.{
  ScanBlock, next_body, advanced, handed, rust_ext_scan_next, rust_ext_scan_close,
  rust_ext_free_scan_batch,
}
use duckdb_superhuman_docs.Exports.Session.{
  no_batch, ScanRead, read_rows, in_front, used, answered, read_scan,
}
use duckdb_superhuman_docs.Exports.Session.Heaps.{
  Kept, IsRestored, Kept-step, Kept-close, Kept-handle, close-Kept,
}

module _ {N F W : Type 0} where
  module _ (serde : Serde N F) (display : Error → Text) where
    abbrev next_answer :
        ScanBatch N
        → ScanHandle W F
        → ℕ
        → Heap (ScanBlock N F W)
        → W
        → Returns (ScanBlock N F W) W (Option FfiScanBatch)
    next_answer batch handle' a g w =
        let (out, g') =
          ffi_scan_batch batch.rows batch.finished (put scan_box (block_ptr a) handle' g) in
        some (record { success = true; out = some out; error = some empty_string }, g', w)

    -- A call of `rust_ext_scan_next` where `next_batch` succeeds.
    scan_next-ok :
        (fuel a : ℕ) (g : Heap (ScanBlock N F W)) (handle handle' : ScanHandle W F) (w w' : W)
        (batch : ScanBatch N)
        → g.cell a ≡ some (scan_block handle)
        → next_batch serde fuel handle w ≡ some (ok batch, handle', w')
        → rust_ext_scan_next display serde
            (ok tt)
            fuel
            (block_ptr a)
            (some no_batch)
            (some empty_string)
            g
            w
          ≡ next_answer batch handle' a g w'
    unfolding rust_ext_scan_next ffi_bool next_body advanced ref_from_raw handed block_on_result
    scan_next-ok fuel a g handle handle' w w' batch boxed e =
        rw (deref-block scan_box a handle g boxed, e) refl

  module _ (a : ℕ) (b : FfiScanBatch) (g₁ g₂ g₃ : Heap (ScanBlock N F W)) (w : W)
      (next : Heap (ScanBlock N F W) → W → ScanRead N F W) (seen : List (SeenRow N))
      (read : see_batch b g₁ ≡ some seen) (freed : rust_ext_free_scan_batch b g₁ ≡ done g₂) where
    used-last :
        b.finished ≡ true
        → rust_ext_scan_close (block_ptr a) g₂ ≡ done g₃
        → used (block_ptr a) b g₁ w next ≡ read_rows seen g₃ w
    unfolding used
    used-last last closed = rw (read, freed, last, closed) refl

    used-more :
        (w' : W) (later : List (SeenRow N))
        → b.finished ≡ false
        → next g₂ w ≡ read_rows later g₃ w'
        → used (block_ptr a) b g₁ w next ≡ read_rows (seen ++ later) g₃ w'
    unfolding used in_front
    used-more w' later not_last rest = rw (read, freed, not_last, rest) refl

  module _ (serde : Serde N F) (display : Error → Text) where
    read_scan-Kept :
        (calls fuel a : ℕ) (h g : Heap (ScanBlock N F W)) (handle handle' : ScanHandle W F)
        (w w' : W) (rows : List (Row N))
        → a < h.next
        → Kept a handle h g
        → drain serde calls fuel handle w ≡ some (ok rows, handle', w')
        → (g' : Heap (ScanBlock N F W)) × (read_scan serde display calls fuel (block_ptr a) g w
            ≡ read_rows (map row_seen rows) g' w')
          × IsRestored a h g'
    unfolding read_scan answered rust_ext_free_scan_batch ffi_scan_batch put
    read_scan-Kept zero fuel a h g handle handle' w w' rows below kept e =
        absurd (drain-ne_some serde fuel handle w e)
    read_scan-Kept (suc calls) fuel a h g handle handle' w w' rows below kept e =
        let d = drain-Drained serde calls fuel handle handle' w w' rows e in
        let here = Kept-handle a h g handle below kept in
        let again = read_scan serde display calls fuel (block_ptr a) in
        let moved = put scan_box (block_ptr a) d.handle g in
        let (b, g₁) = ffi_scan_batch d.batch.rows d.batch.finished moved in
        let (grows, held) = ffi_scan_batch-Builds d.batch.finished d.batch.rows moved in
        let (read, (g₂, freed, cleared)) = held g₁ (λ x own. refl) in
        let kept' = Kept-step a h g g₁ g₂ handle d.handle below kept grows cleared in
        let called =
          scan_next-ok serde display fuel a g handle d.handle w d.world d.batch here d.returned in
        elim d.rest [
          | inl (last, same_rows, same_world) ↦ (
            deallocate a g₂,
            rw called (
                used-last a b g₁ g₂ (deallocate a g₂) d.world again (map row_seen d.batch.rows) read
                  freed last (close-Kept a h g₂ d.handle below kept')
                ∙ λ i. read_rows (map row_seen (same_rows i)) (deallocate a g₂) (same_world i)),
            Kept-close a h g₂ d.handle kept',
          )
          | inr (not_last, (later, split, rest)) ↦
              let (g₃, done', restored) =
                read_scan-Kept calls fuel a h g₂ d.handle handle' d.world w' later below kept'
                  rest in
              (
                g₃,
                rw called (
                    used-more a b g₁ g₂ g₃ d.world again (map row_seen d.batch.rows) read freed w'
                      (map row_seen later) not_last done'
                    ∙ ap (λ l. read_rows l g₃ w')
                        (sym (ap (map row_seen) split ∙ map-append row_seen d.batch.rows later))),
                restored,
              )
        ]

  -- A scan that DuckDB reads through the exported functions to its end, with the runtime built and
  -- with fresh output pointers, from a handle in a box: where `next_batch` read to its end gives
  -- rows, DuckDB reads these rows through the handles of the batches, each with its id, in order;
  -- after that every block of before is as it was but for the handle's box, which is freed, and
  -- every block that was allocated in between is freed.
  pub read_scan-drain :
      (serde : Serde N F) (display : Error → Text) (calls fuel a : ℕ) (h : Heap (ScanBlock N F W))
      (handle handle' : ScanHandle W F) (w w' : W) (rows : List (Row N))
      → a < h.next
      → h.cell a ≡ some (scan_block handle)
      → drain serde calls fuel handle w ≡ some (ok rows, handle', w')
      → (h' : Heap (ScanBlock N F W)) × (read_scan serde display calls fuel (block_ptr a) h w
          ≡ read_rows (map row_seen rows) h' w')
        × IsRestored a h h'
  read_scan-drain serde display calls fuel a h handle handle' w w' rows below boxed e =
      read_scan-Kept serde display calls fuel a h h handle handle' w w' rows below (Kept-start) e
    where
      Kept-start : Kept a handle h h
      Kept-start = (
        omega arith,
        λ x lt. elim (Bool-cases (x == a)) [
          | inl here ↦ let same : x ≡ a = ground arith in rw here (rw same boxed)
          | inr other ↦ let before : ltb x h.next ≡ true = ground arith in rw (other, before) refl
        ],
      )
