-- ===== src/Exports.antt =====
-- What the exported functions of src/exports share: `ffi_bool`, `write_out` and `set_error` of
-- src/ffi/runtime.rs, `block_on_result` of src/platform.rs, and the handles of src/model.rs. A body
-- acts on the heap and the world; `none` is undefined behaviour, or a wait that ran out of fuel. An
-- output pointer is `none` where it is null, and what it points to elsewhere. A panic is the error
-- `slice_panic`, which `ffi_bool` catches where panics unwind.
mod Tests
pub mod Scan
pub mod Session
pub mod Values
pub mod Client
pub mod Strings
pub mod Metadata
pub mod Planning
pub mod Extension
pub mod Secrets
use duckdb_superhuman_docs.Base.{
  ℕ, Text, List, [], ◌∷◌, ◌++◌, Bool, true, false, Option, none, some, Result, ok, err, Error,
  codes, missing_pointer, slice_panic,
}
use duckdb_superhuman_docs.Memory.{
  Heap, Mem, Reading, Building, Ptr, and_maybe, ref_from_raw, read_values,
}
use duckdb_superhuman_docs.Memory.Strings.{FfiString, alloc_string}
use duckdb_superhuman_docs.Model.{ClientConfig, Table, Column, Row}
use duckdb_superhuman_docs.Ffi.Blocks.{Block, contents, config_box, table_box, column_box, row_box}
use duckdb_superhuman_docs.Mutation.Rows.{Waits}

-- A computation on the heap and the world.
abbrev pub Act : Type 0 → Type 0 → Type 0 → Type 0
Act B W A = Heap B → W → Option (Result A × Heap B × W)

-- The body of an exported function: what its output pointers hold then, and its result.
abbrev pub Body : Type 0 → Type 0 → Type 0 → Type 0
Body B W A = Heap B → W → Option ((A × Result (Unit {0})) × Heap B × W)

-- What an exported function returns, and what its output pointers hold.
pub record Answer (A : Type 0) : Type 0 where
  pub success : Bool
  pub out : A
  pub error : Option FfiString

abbrev pub Returns : Type 0 → Type 0 → Type 0 → Type 0
Returns B W A = Option (Answer A × Heap B × W)

-- A call that succeeds, and one that fails.
abbrev pub returned : {B W A : Type 0} → A → Option FfiString → Heap B → W → Returns B W A
returned out error h w = some (record { success = true; out = out; error = error }, h, w)

abbrev pub failed : {B W A : Type 0} → A → Option FfiString → Heap B → W → Returns B W A
failed out error h w = some (record { success = false; out = out; error = error }, h, w)

-- `slice_from_raw_parts` on an array of DuckDB's, which a null pointer leaves out
abbrev pub slice_of : {A : Type 0} → Option (List A) → ℕ → Option (List A)
slice_of none len = some []
slice_of (some items) len = read_values len items

-- `write_out(out, value)`
unfoldable pub write_out : {A : Type 0} → Option A → A → Option A × Result (Unit {0})
write_out none value = (none, err (missing_pointer (codes "output")))
write_out (some old) value = (some value, ok tt)

module _ {B W : Type 0} where
  module _ {A C : Type 0} where
    -- the operator `?`
    abbrev pub onward :
        Option (Result A × Heap B × W) → (A → Act B W C) → Option (Result C × Heap B × W)
    onward none f = none
    onward (some (err e, h, w)) f = some (err e, h, w)
    onward (some (ok a, h, w)) f = f a h w

  module _ {A : Type 0} where
    abbrev awaited : Heap B → Waits W A → Option (Result A × Heap B × W)
    awaited h none = none
    awaited h (some (r, w)) = some (r, h, w)

    -- `block_on_result(future)`, where `runtime` is what building the runtime gave
    unfoldable pub block_on_result : Result (Unit {0}) → (W → Waits W A) → Act B W A
    block_on_result (err e) future h w = some (err e, h, w)
    block_on_result (ok started) future h w = awaited h (future w)

    -- a result that is read from the heap
    abbrev pub reading : Reading B (Result A) → Act B W A
    reading read h w = and_maybe (read h) λ r. some (r, h, w)

    abbrev pub building : Building B A → Act B W A
    building build h w = let (a, h') = build h in some (ok a, h', w)

    -- `write_out(out, act?)`
    unfoldable pub writes :
        Option A
        → Option (Result A × Heap B × W)
        → Option ((Option A × Result (Unit {0})) × Heap B × W)
    unfolding write_out
    writes out none = none
    writes out (some (err e, h, w)) = some ((out, err e), h, w)
    writes out (some (ok a, h, w)) = some (write_out out a, h, w)

-- `set_error(err, message)`
unfoldable pub set_error :
    {N S : Type 0} → Option FfiString → Text → Building (Block N S) (Option FfiString)
unfolding alloc_string
set_error none message h = (none, h)
set_error (some old) message h = let (text, h') = alloc_string contents message h in (some text, h')

module _ (display : Error → Text) where
  -- the message of an error, or of a panic
  unfoldable pub reported : Error → Text
  reported slice_panic = codes "panic"
  reported e = display e

  module _ {N S W A : Type 0} (context : Text) (error : Option FfiString) where
    concluded : Option ((A × Result (Unit {0})) × Heap (Block N S) × W) → Returns (Block N S) W A
    unfolding set_error reported
    concluded none = none
    concluded (some ((out, ok done), h, w)) = returned out error h w
    concluded (some ((out, err e), h, w)) =
        let (error', h') = set_error error (context ++ codes ": " ++ reported e) h in
        some (record { success = false; out = out; error = error' }, h', w)

    unfoldable pub ffi_bool : Body (Block N S) W A → Heap (Block N S) → W → Returns (Block N S) W A
    unfolding concluded
    ffi_bool body h w = concluded (body h w)

module _ {N S : Type 0} where
  unfoldable pub client_config : Ptr → Reading (Block N S) (Result ClientConfig)
  unfolding ref_from_raw
  client_config handle = ref_from_raw config_box handle "client config"

  unfoldable pub table_from_handle : Ptr → Reading (Block N S) (Result Table)
  unfolding ref_from_raw
  table_from_handle handle = ref_from_raw table_box handle "table"

  unfoldable pub column_from_handle : Ptr → Reading (Block N S) (Result Column)
  unfolding ref_from_raw
  column_from_handle handle = ref_from_raw column_box handle "column"

  unfoldable pub row_from_handle : Ptr → Reading (Block N S) (Result (Row N))
  unfolding ref_from_raw
  row_from_handle handle = ref_from_raw row_box handle "row"
