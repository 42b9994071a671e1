-- ===== src/Exports/Strings.antt =====
-- src/exports/memory.rs: the allocation of strings for DuckDB, and what it frees.
use duckdb_superhuman_docs.Base.{ℕ, ◌++◌, ◌≡◌, refl, Text, Option, some, err, Error, codes}
use duckdb_superhuman_docs.Memory.{Heap, Mem, Ptr, and_maybe}
use duckdb_superhuman_docs.Memory.Build.{IsBuilt}
use duckdb_superhuman_docs.Memory.Strings.{
  FfiString, alloc_string, str_from_raw, as_str, free, alloc_string-Builds,
}
use duckdb_superhuman_docs.Ffi.Structs.{FfiAttachConfig}
use duckdb_superhuman_docs.Ffi.Blocks.{Block, config_box, contents}
use duckdb_superhuman_docs.Json.Handles.{free_handle}
use duckdb_superhuman_docs.Exports.{
  Body, Returns, building, writes, ffi_bool, reported, set_error, failed,
}

module _ {N S : Type 0} where
  unfoldable pub rust_ext_free_string : FfiString → Mem (Block N S) (Unit {0})
  rust_ext_free_string value = free contents value

  -- the message of a `RustExtError`
  unfoldable pub rust_ext_free_error : FfiString → Mem (Block N S) (Unit {0})
  rust_ext_free_error message = free contents message

  unfoldable pub rust_ext_free_attach_config : FfiAttachConfig → Mem (Block N S) (Unit {0})
  unfolding free_handle
  rust_ext_free_attach_config config = free_handle config_box config.handle

  module _ {W : Type 0} (display : Error → Text) where
    -- a string is allocated for the text at the pointer
    unfoldable pub rust_ext_alloc_string :
        Ptr
        → ℕ
        → Option FfiString
        → Option FfiString
        → Heap (Block N S)
        → W
        → Returns (Block N S) W (Option FfiString)
    unfolding ffi_bool writes str_from_raw alloc_string
    rust_ext_alloc_string ptr len out error h w =
        ffi_bool display (codes "failed to allocate Superhuman Docs string") error
          (λ h w.
            and_maybe (str_from_raw contents ptr len h)
              λ text. writes out (building (alloc_string contents text) h w))
          h w

    -- A body that fails, under an error pointer that is not null: the call returns false with the
    -- output pointers as the body left them; the message, which names the context and the error,
    -- can be read until `rust_ext_free_error` frees exactly the block that was added for it.
    pub ffi_bool-IsBuilt :
        {A : Type 0} (context : Text) (old : FfiString) (body : Body (Block N S) W A)
        (h h' : Heap (Block N S)) (w w' : W) (out : A) (e : Error)
        → body h w ≡ some ((out, err e), h', w')
        → (message : FfiString) × (h'' : Heap (Block N S)) × (ffi_bool display context
              (some old)
              body
              h
              w
            ≡ failed out (some message) h'' w')
          × IsBuilt
              (as_str contents message)
              (rust_ext_free_error message)
              (context ++ codes ": " ++ reported display e)
              h'
              h''
    unfolding ffi_bool set_error rust_ext_free_error
    ffi_bool-IsBuilt context old body h h' w w' out e failed =
        let text = context ++ codes ": " ++ reported display e in
        let (message, h'') = alloc_string contents text h' in
        (message, h'', rw failed refl, alloc_string-Builds contents text h')
