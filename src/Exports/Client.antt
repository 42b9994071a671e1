-- ===== src/Exports/Client.antt =====
-- src/exports/client.rs: the catalog, and the changes of rows. The arrays that DuckDB passes are
-- lists, of which a slice of the given length is read.
use duckdb_superhuman_docs.Base.{
  ℕ, ◌*◌, ◌≡◌, refl, Text, List, map, Option, some, Result, ok, Error, codes,
}
use duckdb_superhuman_docs.Json.{Serde}
use duckdb_superhuman_docs.Sdk.Calls.{Network}
use duckdb_superhuman_docs.Memory.{Heap, Mem, Ptr, block_ptr, and_maybe}
use duckdb_superhuman_docs.Memory.Build.{IsBuilt, deref-block}
use duckdb_superhuman_docs.Memory.Strings.{FfiString}
use duckdb_superhuman_docs.Model.{ClientConfig, Table, Column}
use duckdb_superhuman_docs.Ffi.{InputValue, WriteColumn}
use duckdb_superhuman_docs.Ffi.Structs.{FfiCatalog}
use duckdb_superhuman_docs.Ffi.Blocks.{Block, config_block, config_box}
use duckdb_superhuman_docs.Json.Handles.{ffi_catalog, free_catalog}
use duckdb_superhuman_docs.Json.Handles.Lifetime.{see_catalog, table_seen, ffi_catalog-Builds}
use duckdb_superhuman_docs.Client.Catalog.{load_catalog}
use duckdb_superhuman_docs.Mutation.Payload.{usize}
use duckdb_superhuman_docs.Mutation.Status.{Clock}
use duckdb_superhuman_docs.Mutation.Rows.{Waits, insert_rows, update_rows, delete_rows}
use duckdb_superhuman_docs.Exports.{
  Body, Returns, onward, reading, building, writes, block_on_result, ffi_bool, slice_of, returned,
  client_config, table_from_handle,
}

module _ {N S : Type 0} where
  unfoldable pub rust_ext_free_catalog : FfiCatalog → Mem (Block N S) (Unit {0})
  unfolding free_catalog
  rust_ext_free_catalog catalog = free_catalog catalog

module _ {N F S W : Type 0} (serde : Serde N F) (network : Network W F) (clock : Clock W)
    (runtime : Result (Unit {0})) (display : Error → Text) where
  -- the configuration and the table of a change of rows, and what is done with them
  unfoldable pub changed :
      Ptr → Ptr → (ClientConfig → Table → W → Waits W ℕ) → Option ℕ → Body (Block N S) W (Option ℕ)
  unfolding client_config table_from_handle block_on_result writes
  changed config table change out h w = writes out (
      onward (reading (client_config config) h w) λ config' h w.
        onward (reading (table_from_handle table) h w)
          λ table' h w. block_on_result runtime (change config' table') h w)

  unfoldable pub load_body :
      ℕ → ℕ → Ptr → Option FfiCatalog → Body (Block N S) W (Option FfiCatalog)
  unfolding client_config block_on_result writes ffi_catalog
  load_body pages fuel config out h w = writes out (
      onward (reading (client_config config) h w) λ config' h w.
        onward (block_on_result runtime (load_catalog serde network pages fuel config') h w)
          λ tables h w. building (ffi_catalog tables) h w)

  unfoldable pub rust_ext_client_load_catalog :
      ℕ
      → ℕ
      → Ptr
      → Option FfiCatalog
      → Option FfiString
      → Heap (Block N S)
      → W
      → Returns (Block N S) W (Option FfiCatalog)
  unfolding ffi_bool load_body
  rust_ext_client_load_catalog pages fuel config out error h w =
      ffi_bool display (codes "failed to load Superhuman Docs catalog") error
        (load_body pages fuel config out) h w

  module _ (fuel : ℕ) (config table : Ptr) where
    unfoldable pub rust_ext_client_insert_rows :
        Option (List WriteColumn)
        → ℕ
        → Option (List (InputValue F))
        → ℕ
        → ℕ
        → Option ℕ
        → Option FfiString
        → Heap (Block N S)
        → W
        → Returns (Block N S) W (Option ℕ)
    unfolding ffi_bool changed
    rust_ext_client_insert_rows columns column_count values row_count value_column_count out error h
          w =
        ffi_bool display (codes "failed to insert Superhuman Docs rows") error
          (λ h w. and_maybe (slice_of columns column_count) λ columns'.
            and_maybe (slice_of values (usize (row_count * value_column_count))) λ values'.
              changed config table
                (λ config' table' w.
                  insert_rows serde network clock fuel config' table' columns' values' row_count
                    value_column_count w)
                out h w)
          h w

    unfoldable pub rust_ext_client_update_rows :
        Option (List Text)
        → ℕ
        → Option (List WriteColumn)
        → ℕ
        → Option (List (InputValue F))
        → Option ℕ
        → Option FfiString
        → Heap (Block N S)
        → W
        → Returns (Block N S) W (Option ℕ)
    unfolding ffi_bool changed
    rust_ext_client_update_rows row_ids row_count columns column_count values out error h w =
        ffi_bool display (codes "failed to update Superhuman Docs rows") error
          (λ h w. and_maybe (slice_of row_ids row_count) λ row_ids'.
            and_maybe (slice_of columns column_count) λ columns'.
              and_maybe (slice_of values (usize (row_count * column_count))) λ values'.
                changed config table
                  (λ config' table' w.
                    update_rows serde network clock fuel config' table' row_ids' columns' values' w)
                  out h w)
          h w

    unfoldable pub rust_ext_client_delete_rows :
        Option (List Text)
        → ℕ
        → Option ℕ
        → Option FfiString
        → Heap (Block N S)
        → W
        → Returns (Block N S) W (Option ℕ)
    unfolding ffi_bool changed
    rust_ext_client_delete_rows row_ids count out error h w =
        ffi_bool display (codes "failed to delete Superhuman Docs rows") error
          (λ h w. and_maybe (slice_of row_ids count) λ row_ids'.
            changed config table
              (λ config' table' w. delete_rows serde network clock fuel config' table' row_ids' w)
              out h w)
          h w

  -- A catalog that is loaded through the exported function, from a configuration in a box, with the
  -- runtime built and an output pointer that is not null: where `load_catalog` returns tables with
  -- their columns, the call succeeds, DuckDB reads these tables and columns through the handles as
  -- long as the blocks that were added are as they were built, and `rust_ext_free_catalog` then
  -- frees exactly these.
  pub load_catalog-IsBuilt :
      (pages fuel a : ℕ) (config : ClientConfig) (old : FfiCatalog) (error : Option FfiString)
      (h : Heap (Block N S)) (w w' : W) (tables : List (Table × List Column))
      → runtime ≡ ok tt
      → h.cell a ≡ some (config_block config)
      → load_catalog serde network pages fuel config w ≡ some (ok tables, w')
      → (catalog : FfiCatalog) × (h' : Heap (Block N S)) × (rust_ext_client_load_catalog pages fuel
            (block_ptr a)
            (some old)
            error
            h
            w
          ≡ returned (some catalog) error h' w')
        × IsBuilt (see_catalog catalog) (rust_ext_free_catalog catalog) (map table_seen tables) h h'
  unfolding rust_ext_client_load_catalog ffi_bool load_body rust_ext_free_catalog client_config
  load_catalog-IsBuilt pages fuel a config old error h w w' tables running boxed loaded =
      let (catalog, h') = ffi_catalog tables h in
      (
        catalog,
        h',
        rw (running, deref-block config_box a config h boxed, loaded) refl,
        ffi_catalog-Builds tables h,
      )
