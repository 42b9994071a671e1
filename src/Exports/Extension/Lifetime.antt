-- ===== src/Exports/Extension/Lifetime.antt =====
-- What DuckDB reads of an attached configuration, until it frees it.
use duckdb_superhuman_docs.Base.{◌≡◌, refl, ap, some}
use duckdb_superhuman_docs.Attach.Resolve.{AttachConfig}
use duckdb_superhuman_docs.Memory.{Heap, Reading, config_resource, and_maybe, deref}
use duckdb_superhuman_docs.Memory.Build.{IsBuilt, deref-block}
use duckdb_superhuman_docs.Memory.Strings.{as_str, as_str-borrow_string}
use duckdb_superhuman_docs.Ffi.Structs.{FfiAttachConfig}
use duckdb_superhuman_docs.Ffi.Blocks.{Block, config_block, config_box, contents}
use duckdb_superhuman_docs.Json.Handles.Lifetime.{handle-IsBuilt}
use duckdb_superhuman_docs.Exports.Strings.{rust_ext_free_attach_config}
use duckdb_superhuman_docs.Exports.Extension.{ffi_attach}

module _ {N S : Type 0} where
  abbrev pub see_attach : FfiAttachConfig → Reading (Block N S) AttachConfig
  see_attach config h = and_maybe (deref config_box config.handle h) λ handle.
      and_maybe (as_str contents config.database_name h)
        λ name. some (record { handle = handle; database_name = name })

  -- A configuration that is handed to DuckDB, under its resource as the name of the database: it
  -- reads as it is until `rust_ext_free_attach_config` frees exactly its box.
  pub ffi_attach-IsBuilt :
      (attach : AttachConfig) (h : Heap (Block N S))
      → attach.handle.resource ≡ attach.database_name
      → IsBuilt
          (see_attach (ffi_attach attach h).0)
          (rust_ext_free_attach_config (ffi_attach attach h).0)
          attach
          h
          (ffi_attach attach h).1
  unfolding ffi_attach rust_ext_free_attach_config
  ffi_attach-IsBuilt attach h named =
      let b = config_block attach.handle in
      let (grows, held) = handle-IsBuilt config_box attach.handle h in
      (
        grows,
        λ g agree.
            let (e, released) = held g agree in
            let name =
              as_str-borrow_string contents h.next config_resource b g attach.database_name e
                (ap some named) in
            (rw (deref-block config_box h.next attach.handle g e, name) refl, released),
      )
