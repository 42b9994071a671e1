-- ===== src/Exports/Session/Heaps.antt =====
-- The heap while DuckDB reads a scan.
use duckdb_superhuman_docs.Base.{
  ℕ, ◌≤◌, ◌<◌, ◌≡◌, refl, ◌∙◌, true, false, none, some, if◌then◌else◌, ltb, ◌==◌, Bool-cases, inl,
  inr, arith,
}
use duckdb_superhuman_docs.Memory.{Heap, block_ptr, put, deallocate}
use duckdb_superhuman_docs.Memory.Owned.{Grows, IsCleared, within, done}
use duckdb_superhuman_docs.Memory.Build.{from_raw-block}
use duckdb_superhuman_docs.Ffi.Blocks.{scan_block, scan_box}
use duckdb_superhuman_docs.Json.Handles.{free_handle}
use duckdb_superhuman_docs.Client.Scan.{ScanHandle}
use duckdb_superhuman_docs.Exports.Scan.{ScanBlock, rust_ext_scan_close}

module _ {N F W : Type 0} where
  -- The heap of a scan that is open: the blocks of before, the handle's box aside, and no others.
  abbrev pub Kept : ℕ → ScanHandle W F → Heap (ScanBlock N F W) → Heap (ScanBlock N F W) → Type 0
  Kept a handle h g =
      (h.next ≤ g.next)
      × ((x : ℕ)
          → x < g.next
          → g.cell x ≡ (
              if x == a then some (scan_block handle) else if ltb x h.next then h.cell x else none))

  -- The heap of a scan that is closed: the blocks of before without the handle's box, and no others.
  abbrev pub IsRestored : ℕ → Heap (ScanBlock N F W) → Heap (ScanBlock N F W) → Type 0
  IsRestored a h g =
      (h.next ≤ g.next)
      × ((x : ℕ)
          → x < g.next
          → g.cell x ≡ (if x == a then none else if ltb x h.next then h.cell x else none))

  module _ (a : ℕ) (h g₀ g₁ g₂ : Heap (ScanBlock N F W)) (handle handle' : ScanHandle W F)
      (below : a < h.next) where
    -- A batch that is built and freed leaves the heap of the scan, with the handle as it is then.
    pub Kept-step :
        Kept a handle h g₀
        → Grows (put scan_box (block_ptr a) handle' g₀) g₁
        → IsCleared (within g₀.next g₁.next) g₁ g₂
        → Kept a handle' h g₂
    unfolding put
    Kept-step (le, kept) (le', grown) (same, cleared) = (
      omega (arith, le, le', same),
      λ x lt. elim (Bool-cases (within g₀.next g₁.next x)) [
        | inl new ↦ let (other, after) = fresh x new le in cleared x ∙ rw (new, other, after) refl
        | inr old ↦
            let lt' = before x old (omega (arith, lt, same)) in
            cleared x
            ∙ rw old (
                grown x lt' ∙ elim (Bool-cases (x == a)) [
                  | inl here ↦ rw here refl
                  | inr other ↦ rw other (kept x lt' ∙ rw other refl)
                ])
      ],
    )
      where
        fresh :
            (x : ℕ)
            → within g₀.next g₁.next x ≡ true
            → h.next ≤ g₀.next
            → ((x == a) ≡ false) × (ltb x h.next ≡ false)
        fresh x new le = ground arith

        before : (x : ℕ) → within g₀.next g₁.next x ≡ false → x < g₁.next → x < g₀.next
        before x old lt = ground arith

  module _ (a : ℕ) (h g : Heap (ScanBlock N F W)) (handle : ScanHandle W F) where
    pub Kept-close : Kept a handle h g → IsRestored a h (deallocate a g)
    unfolding deallocate
    Kept-close (le, kept) = (
      le,
      λ x lt. elim (Bool-cases (x == a)) [
        | inl here ↦ rw here refl
        | inr other ↦ rw other (kept x lt ∙ rw other refl)
      ],
    )

    -- The handle is in its box.
    pub Kept-handle : a < h.next → Kept a handle h g → g.cell a ≡ some (scan_block handle)
    Kept-handle below (le, kept) =
        let here : (a == a) ≡ true = ground arith in
        kept a (omega (arith, below, le)) ∙ rw here refl

    pub close-Kept :
        a < h.next → Kept a handle h g → rust_ext_scan_close (block_ptr a) g ≡ done (deallocate a g)
    unfolding rust_ext_scan_close free_handle
    close-Kept below k = rw (from_raw-block scan_box a handle g (Kept-handle below k)) refl
